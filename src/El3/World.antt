-- ===== src/El3/World.antt =====
-- The SMC path through EL3 as a whole, with the world switch of el3/aarch64: which world EL3 thinks
-- it serves, and which one the processor is in.
use qemu_tztest.Common.{
  ℕ, ◌%◌, ◌<◌, ◌≡◌, refl, arith, ap, ◌∙◌, sym, ◌≢◌, inl, inr, true, Option, some, List, bit_and,
  bit_xor, ◌==◌, if◌then◌else◌, u32, ◌>>=◌, Option-cases, zero, suc, get_elem?,
}
use qemu_tztest.Bits.{bit_and-one}
use qemu_tztest.Interop.{Desc, smc_op_set_reg, key_scr}
use qemu_tztest.Interop.Data
use qemu_tztest.Interop.Disp
use qemu_tztest.Tztest.Run.{TestFn, call_test, run_test}
use qemu_tztest.El3.{
  Reg, cptr_el3, cpacr_el1, scr_el3, sctlr_el1, Regs, El3State, el3, Outcome, map_on, el3_map_mem,
  set_reg, smc_set_reg, smc_dispatch, smc_switch, smc_return, el3_handle_smc, el3_shutdown,
}

-- EL3's `secure_state` is the NS bit.
abbrev pub Agrees : El3State → Type 0
Agrees s = s.secure_state ≡ s.regs scr_el3 % 2

module _ (msr : Reg → ℕ → Regs → Regs) (tests : List (Option (TestFn El3State)))
    (svc : ℕ → Desc → El3State → Option (Desc × El3State)) (stack : Desc) (fuel : ℕ) where
  -- The monitor's switch of worlds (`monitor_switch` of el3_monitor_asm.S): the NS bit of SCR_EL3 is
  -- turned over and every other bit of it is cleared.
  abbrev pub monitor_switch : El3State → El3State
  monitor_switch s = record s { regs = msr scr_el3 (bit_xor (bit_and (s.regs scr_el3) 1) 1) s.regs }

  -- The SMC path of the exception vector (`el3_sync_exception_lower64_smc` of el3_exception.S): the
  -- handler, then the switch if its result is not zero.
  abbrev pub smc_vector : ℕ → Desc → ℕ → El3State → Outcome
  smc_vector op desc elr s = do
    (ret, desc', s') ← el3_handle_smc msr tests svc stack fuel op desc elr s
    some (ret, desc', if ret == 0 then s' else monitor_switch s')

  -- What the invariant needs of the CPU: the NS bit reads back, and other registers leave it alone.
  -- Of the tests of EL3: that they keep it.
  module _ (ns_reads : (v : ℕ) (regs : Regs) → msr scr_el3 v regs scr_el3 % 2 ≡ v % 2)
      (ns_kept : (r : Reg) (v : ℕ) (regs : Regs)
        → r ≢ scr_el3
        → msr r v regs scr_el3 ≡ regs scr_el3)
      (tests_keep : (fid arg : ℕ) (f : TestFn El3State) (s t : El3State)
        → get_elem? tests fid ≡ some (some f)
        → f arg s ≡ some t
        → Agrees s
        → Agrees t) where
    call_test-Agrees :
        (fid arg : ℕ) (s t : El3State)
        → call_test (get_elem? tests fid) arg s ≡ some t
        → Agrees s
        → Agrees t
    unfolding call_test
    call_test-Agrees fid arg s t h agrees = elim (Option-cases (get_elem? tests fid)) [
      | inl e ↦ cc (ap (λ o. call_test o arg s) e)
      | inr (o, e) ↦ elim (Option-cases o) [
        | inl e' ↦
            let same : s ≡ t = cc (ap (λ o. call_test o arg s) (e ∙ ap some e')) in
            ap (λ (u : El3State). u.secure_state) (sym same)
            ∙ agrees
            ∙ ap (λ (u : El3State). u.regs scr_el3 % 2) same
        | inr (f, e') ↦
            tests_keep fid arg f s t (e ∙ ap some e')
              (cc (ap (λ o. call_test o arg s) (e ∙ ap some e'))) agrees
      ]
    ]

    -- A dispatch that `el3_handle_smc` accepts never gets to the SVC of `run_test`.
    dispatch-Agrees :
        (desc : Desc) (s t : El3State)
        → Disp.el desc ≡ el3
        → Disp.state desc ≡ bit_and (s.regs scr_el3) 1
        → run_test el3
            (λ (u : El3State). u.secure_state)
            tests
            svc
            stack
            (Disp.fid desc)
            (Disp.el desc)
            (Disp.state desc)
            (Disp.arg desc)
            s
          ≡ some t
        → Agrees s
        → Agrees t
    unfolding run_test
    dispatch-Agrees desc s t e f h agrees =
        let here : u32 (Disp.el desc) == el3 ≡ true = ground arith in
        let world : u32 (Disp.state desc) == s.secure_state ≡ true =
          ground (arith, bit_and-one (s.regs scr_el3)) in
        call_test-Agrees _ _ s t (rw (here, world) at h) agrees

    set_reg-ns :
        (desc : Desc) (regs : Regs)
        → (Data.key desc ≡ key_scr → Data.value desc % 2 ≡ regs scr_el3 % 2)
        → set_reg msr desc regs scr_el3 % 2 ≡ regs scr_el3 % 2
    unfolding set_reg
    set_reg-ns desc regs same = ground (
      arith,
      ns_reads (Data.value desc) regs,
      ns_kept cptr_el3 (Data.value desc) regs (λ e. cc),
      ns_kept cpacr_el1 (Data.value desc) regs (λ e. cc),
      ns_kept sctlr_el1 (Data.value desc) regs (λ e. cc),
    )

    smc_switch-Agrees :
        (op : ℕ) (desc : Desc) (s : El3State) (ret : ℕ) (desc' : Desc) (t : El3State)
        → (op ≡ smc_op_set_reg → Data.key desc ≡ key_scr → Data.value desc % 2 ≡ s.regs scr_el3 % 2)
        → Agrees s
        → smc_switch msr tests svc stack fuel op desc s ≡ some (ret, desc', t)
        → Agrees t
    unfolding smc_switch smc_dispatch el3_map_mem map_on smc_set_reg el3_shutdown
    smc_switch-Agrees op desc s ret desc' t same agrees h =
        ground (arith, dispatch-Agrees desc s t, set_reg-ns desc s.regs)

    flip : (x : ℕ) → x < 2 → bit_xor x 1 % 2 ≡ bit_xor x 1
    flip zero h = refl
    flip (suc zero) h = refl
    flip (suc (suc x)) h = absurd (omega arith)

    monitor_switch-Agrees :
        (t : El3State) (x : ℕ)
        → x ≡ t.regs scr_el3 % 2
        → bit_xor x 1 ≡ msr scr_el3 (bit_xor (bit_and (t.regs scr_el3) 1) 1) t.regs scr_el3 % 2
    monitor_switch-Agrees t x e =
        rw
          (
            ns_reads (bit_xor (bit_and (t.regs scr_el3) 1) 1) t.regs,
            bit_and-one (t.regs scr_el3),
            ← e,
          )
          (sym (flip x (omega arith)))

    -- Every SMC leaves EL3's `secure_state` equal to the NS bit, through the switch of worlds, unless
    -- it is a request to write an SCR with another NS bit.
    pub smc_vector-Agrees :
        (op : ℕ) (desc : Desc) (elr : ℕ) (s : El3State) (ret : ℕ) (desc' : Desc) (s' : El3State)
        → (op ≡ smc_op_set_reg → Data.key desc ≡ key_scr → Data.value desc % 2 ≡ s.regs scr_el3 % 2)
        → Agrees s
        → smc_vector op desc elr s ≡ some (ret, desc', s')
        → Agrees s'
    unfolding el3_handle_smc smc_return
    smc_vector-Agrees op desc elr s ret desc' s' same agrees h =
        elim (Option-cases (smc_switch msr tests svc stack fuel op desc s)) [
          | inl e ↦ cc (e, h)
          | inr ((k, d, t), e) ↦
              let inner = smc_switch-Agrees op desc s k d t same agrees e in
              ground (arith, inner, monitor_switch-Agrees t t.secure_state)
        ]
