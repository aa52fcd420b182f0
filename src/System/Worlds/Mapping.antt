-- ===== src/System/Worlds/Mapping.antt =====
-- A mapping request of the nonsecure program for every level (OP_MAP_ALL), through both worlds.
use qemu_tztest.Common.{
  ℕ, suc, ◌+◌, ◌*◌, ◌/◌, ◌^◌, ◌≤◌, ◌<◌, ◌≡◌, ◌≢◌, refl, arith, ap, ◌∙◌, sym, true, false, Option,
  some, List, ◌==◌, if◌then◌else◌, bit_and,
}
use qemu_tztest.Mem64.{MemState, mem_map_pa, mem_lookup_pa, pte_user_rw}
use qemu_tztest.Mem64.State.{IsMapped}
use qemu_tztest.Mem64.Lookup.{mem_lookup_pa-mem_map_pa}
use qemu_tztest.Interop.{
  Desc, smc_op_map, svc_op_map, svc_op_yield, secure, nonsecure, op_map_el3, op_map_all,
}
use qemu_tztest.Interop.MapMem
use qemu_tztest.Tztest.Run.{TestFn}
use qemu_tztest.El3.{Reg, Regs, El3State, el3_map_mem, smc_switch, smc_return, el3_handle_smc}
use qemu_tztest.El3.Map.{asks, passed_on, el3_map_mem-Mapped}
use qemu_tztest.El1.{El1State, el1_handle_svc, svc_switch, el1_map_secure, map_request, send}
use qemu_tztest.El0.{loop_switch}
use qemu_tztest.System.Machine.{view_of, enter, call_monitor}
use qemu_tztest.System.Machine.Registers.{Stores}
use qemu_tztest.System.Worlds.Ready.{IsReady, Crossed-IsReady, turned-Crossed}
use qemu_tztest.System.Machine.Services.{low-set_low}
use qemu_tztest.System.Worlds.{svc_of, end_turn, rounds, secure_turn, change_places}
use qemu_tztest.System.Worlds.Remote.{switched, monitor_here, svc-yield, yielded, turn_here}

module _ (msr : Reg → ℕ → Regs → Regs) (tests3 : List (Option (TestFn El3State)))
    (svc3 : ℕ → Desc → El3State → Option (Desc × El3State))
    (svc1 : ℕ → Desc → El1State → Option (Desc × El1State)) (stack : Desc)
    (fuel pc iss far junk : ℕ) where
  abbrev crossed : El1State → El1State
  crossed = switched msr tests3 svc3 svc1 stack fuel pc iss far junk

  abbrev turn : ℕ → El1State → Option (ℕ × El1State)
  turn = turn_here msr tests3 svc3 svc1 stack fuel pc iss far junk

  abbrev back : El1State → El1State
  back = yielded msr tests3 svc3 svc1 stack fuel pc iss far junk

  abbrev svc_by :
      (ℕ → El1State → Option (ℕ × El1State)) → ℕ → Desc → El1State → Option (ℕ × Desc × El1State)
  svc_by = svc_of msr tests3 svc3 svc1 stack fuel pc iss far junk

  -- EL3 maps the page and goes on in the secure world.
  monitor-map :
      (d : Desc) (mm' : MemState) (s : El1State)
      → el3_map_mem fuel s.smc_interop_buf (enter s)
        ≡ some (svc_op_map, d, record (enter s) { mm = mm' })
      → monitor_here msr tests3 svc3 svc1 stack fuel pc iss far junk turn smc_op_map s
        ≡ turn svc_op_map
            (crossed (record s { smc_interop_buf = d; monitor = record s.monitor { mm = mm' } }))
  unfolding call_monitor el3_handle_smc smc_switch smc_return
  monitor-map d mm' s mapped = rw mapped

  -- A kernel maps the page itself where EL3 is not asked.
  svc-map_own :
      (other : ℕ → El1State → Option (ℕ × El1State)) (d : Desc) (mm' : MemState) (s : El1State)
      → asks op_map_el3 d ≡ false
      → mem_map_pa fuel (MapMem.va d) (MapMem.pa d) 0 pte_user_rw s.mm ≡ some mm'
      → svc_by other svc_op_map d s ≡ some (0, d, record s { mm = mm'; elr = pc })
  unfolding el1_handle_svc svc_switch el1_map_secure
  svc-map_own other d mm' s own mapped = rw (own, mapped)

  -- Where EL3 is asked, the kernel hands the request on.
  svc-map_on :
      (d : Desc) (ret : ℕ) (s t : El1State)
      → asks op_map_el3 d ≡ true
      → monitor_here msr tests3 svc3 svc1 stack fuel pc iss far junk turn smc_op_map
          (record s { smc_interop_buf = map_request d s })
        ≡ some (ret, t)
      → svc_by turn svc_op_map d s ≡ some (0, d, record t { elr = pc })
  unfolding el1_handle_svc svc_switch el1_map_secure send
  svc-map_on d ret s t on served = rw (on, served)

  -- The secure world's turn: its kernel maps the page for the secure program, which then yields.
  turn-map :
      (mm' : MemState) (s : El1State)
      → asks op_map_el3 s.smc_interop_buf ≡ false
      → mem_map_pa fuel
          (MapMem.va s.smc_interop_buf)
          (MapMem.pa s.smc_interop_buf)
          0
          pte_user_rw
          s.parked.mm
        ≡ some mm'
      → turn svc_op_map s
        ≡ some (svc_op_yield, back (record (change_places s) { mm = mm'; elr = pc }))
  unfolding secure_turn rounds loop_switch
  turn-map mm' s own mapped =
      let d = s.smc_interop_buf in
      let t = record (change_places s) { mm = mm'; elr = pc } in
      rw (
        svc-map_own end_turn d mm' (change_places s) own mapped,
        svc-yield msr tests3 svc3 svc1 stack fuel pc iss far junk end_turn d t (crossed t)
            svc_op_yield refl,
      )

-- The page is mapped alike in the tables of EL3 and of the other world's kernel, and the kernel's own tables
-- are as they were.
pub record Everywhere (va pa : ℕ) (s : El1State) (d : Desc) (result : Option (ℕ × Desc × El1State))
    : Type 0 where
  pub after : El1State
  pub returns : result ≡ some (0, d, after)
  pub monitor : mem_lookup_pa va after.monitor.mm ≡ pa
  pub other : mem_lookup_pa va after.parked.mm ≡ pa
  pub own : after.mm ≡ s.mm
  pub kept : (after.syscntl ≡ s.syscntl) × (after.syscntl_va ≡ s.syscntl_va)
  pub ready : IsReady nonsecure secure (view_of after)

-- The request that the kernel makes of one for every level.
record Asks (d : Desc) (s : El1State) (r : Desc) : Type 0 where
  type : MapMem.type r ≡ op_map_all
  va : MapMem.va r ≡ MapMem.va d
  pa : MapMem.pa r ≡ mem_lookup_pa (MapMem.va d) s.mm

map_request-Asks :
    (d : Desc) (s : El1State)
    → MapMem.type d ≡ op_map_all
    → MapMem.pa d ≢ 0
    → Asks d s (map_request d s)
unfolding map_request
map_request-Asks d s all given =
    let off : (MapMem.pa d == 0) ≡ false = ground arith in
    rw off (record { type = all; va = refl; pa = refl })

module _ (msr : Reg → ℕ → Regs → Regs) (tests3 : List (Option (TestFn El3State)))
    (svc3 : ℕ → Desc → El3State → Option (Desc × El3State))
    (svc1 : ℕ → Desc → El1State → Option (Desc × El1State)) (stack : Desc)
    (depth pc iss far junk : ℕ) where
  -- A request with OP_MAP_ALL whose physical address field is not zero maps the page that the nonsecure kernel
  -- has at the address, in the tables of EL3 and of the secure kernel, if each of the two has three pages left;
  -- the nonsecure kernel's tables and the control block are as they were, and both worlds can run their tests again.
  pub svc_of-Everywhere :
      {root limit root' limit' : ℕ} (d : Desc) (s : El1State)
      (inv : IsMapped root limit s.monitor.mm) (inv' : IsMapped root' limit' s.parked.mm)
      → Stores msr
      → IsReady nonsecure secure (view_of s)
      → MapMem.type d ≡ op_map_all
      → MapMem.pa d ≢ 0
      → mem_lookup_pa (MapMem.va d) s.mm < 2 ^ 36
      → inv.next + 3 ≤ limit
      → inv'.next + 3 ≤ limit'
      → Everywhere (MapMem.va d) (mem_lookup_pa (MapMem.va d) s.mm / 0x1000 * 0x1000) s d (
          svc_of msr tests3 svc3 svc1 stack
            (suc (suc depth))
            pc
            iss
            far
            junk
            (turn_here msr tests3 svc3 svc1 stack (suc (suc depth)) pc iss far junk)
            svc_op_map
            d
            s)
  svc_of-Everywhere d s inv inv' stores ready all given there room room' =
      let fuel = suc (suc depth) in
      let r = map_request d s in
      let a = map_request-Asks d s all given in
      let low_pa : MapMem.pa r < 2 ^ 36 = omega (arith, a.pa, there) in
      let s1 = record s { smc_interop_buf = r } in
      let page = ap (λ p. p / 0x1000 * 0x1000) a.pa in
      let el3 =
        el3_map_mem-Mapped depth r (enter s1) inv (ap (λ x. bit_and x 8 == 8) a.type) low_pa room in
      let same : el3.mm' ≡ el3.maps.after = cc (el3.maps.returns) in
      let passed : passed_on r ≡ (svc_op_map, MapMem.set_type 7 r) =
        ap
          (λ x.
            if bit_and x 4 == 4
            then (svc_op_map, MapMem.set_type (bit_and x 0xFFFFFFF7) r)
            else (0, r))
          a.type in
      let d' = MapMem.set_type 7 r in
      let mapped =
        el3.returns ∙ ap (λ p. some (p.0, p.1, record (enter s1) { mm = el3.mm' })) passed in
      let s3 = record s { smc_interop_buf = d'; monitor = record s.monitor { mm = el3.mm' } } in
      let s2 = switched msr tests3 svc3 svc1 stack fuel pc iss far junk s3 in
      let el1 =
        mem_lookup_pa-mem_map_pa (MapMem.va r) (MapMem.pa r) 0 pte_user_rw depth inv' (omega arith)
          (omega arith) low_pa room' in
      let own : asks op_map_el3 d' ≡ false = ap (λ x. bit_and x 8 == 8) (low-set_low r.w0 7) in
      let t = record (change_places s2) { mm = el1.after; elr = pc } in
      let u = yielded msr tests3 svc3 svc1 stack fuel pc iss far junk t in
      let served =
        monitor-map msr tests3 svc3 svc1 stack fuel pc iss far junk d' el3.mm' s1 mapped
        ∙ turn-map msr tests3 svc3 svc1 stack fuel pc iss far junk el1.after s2 own el1.returns in
      record {
        after = record u { elr = pc };
        returns =
            svc-map_on msr tests3 svc3 svc1 stack fuel pc iss far junk d svc_op_yield s u
              (ap (λ x. bit_and x 8 == 8) all) served;
        monitor =
            ap (mem_lookup_pa (MapMem.va d)) same
            ∙ ap (λ v. mem_lookup_pa v el3.maps.after) (sym a.va)
            ∙ el3.maps.hit
            ∙ page;
        other = ap (λ v. mem_lookup_pa v el1.after) (sym a.va) ∙ el1.hit ∙ page;
        own = refl;
        kept = (refl, refl);
        ready =
            Crossed-IsReady (view_of t) (view_of u)
              (turned-Crossed msr tests3 svc3 stack fuel pc stores t pc)
              (Crossed-IsReady (view_of s) (view_of t)
                (turned-Crossed msr tests3 svc3 stack fuel pc stores s3 s.elr) ready);
      }
