-- ===== src/El1/Svc.antt =====
-- The SVC handler of el1/el1.c, by what a yield does and the other operations do not.
use qemu_tztest.Common.{ℕ, ◌≡◌, arith, ◌≢◌, Option, some, List, u32, Option-cases, inl, inr}
use qemu_tztest.Interop.{Desc, smc_op_yield, svc_op_yield}
use qemu_tztest.Tztest.Run.{TestFn}
use qemu_tztest.El1.{
  El1State, Below, send, exchange, el1_map_secure, el1_interop_test, svc_exit, svc_yield,
  svc_get_reg, svc_set_reg, svc_dispatch, svc_switch, el1_handle_svc, el1_alloc_mem,
}

module _ (below : Below) (tests : List (Option (TestFn El1State)))
    (svc : ℕ → Desc → El1State → Option (Desc × El1State)) (stack : Desc) (fuel : ℕ) where
  -- What the caller of an SVC gets back: for a yield the operation that woke this world, with the
  -- descriptor in the shared buffer; for every other operation 0. The exception returns to `elr`.
  pub el1_handle_svc-yield :
      (op : ℕ) (desc : Desc) (elr : ℕ) (s : El1State) (ret : ℕ) (desc' : Desc) (s' : El1State)
      → el1_handle_svc below tests svc stack fuel op desc elr s ≡ some (ret, desc', s')
      → (u32 op ≢ svc_op_yield → ret ≡ 0)
        × (u32 op ≡ svc_op_yield
            → (k : ℕ) × (t : El1State) × (below.smc smc_op_yield s ≡ some (k, t))
              × (ret ≡ u32 k)
              × (desc' ≡ t.smc_interop_buf))
        × (s'.elr ≡ elr)
  unfolding el1_handle_svc svc_switch svc_exit svc_yield svc_get_reg svc_set_reg svc_dispatch
      el1_alloc_mem el1_map_secure el1_interop_test exchange send
  el1_handle_svc-yield op desc elr s ret desc' s' h = (
    λ ne. ground arith,
    λ e. elim (Option-cases (below.smc smc_op_yield s)) [
      | inl f ↦ absurd (ground arith)
      | inr ((k, t), f) ↦ (k, t, f, ground arith, ground arith)
    ],
    ground arith,
  )
