-- ===== src/System/Worlds/Suite.antt =====
-- The whole run of the test program: the interop test and the table of tests.
use qemu_tztest.Common.{
  ℕ, zero, suc, ◌+◌, ◌^◌, ◌<◌, ◌≡◌, inl, inr, refl, arith, ap, ◌∙◌, sym, Bool, true, false, ◌&&◌,
  ltb, Bool-cases, Option, some, List, [], ◌∷◌, ◌==◌, if◌then◌else◌, u32,
}
use qemu_tztest.Interop.{Desc, SysControl, secure, nonsecure}
use qemu_tztest.Tztest.Run.{TestFn}
use qemu_tztest.Tztest.Check.{count_verdict}
use qemu_tztest.Tztest.Check.Laws.{checked}
use qemu_tztest.Tztest.Driver.{Case, tztest, run_cases, tztest_start}
use qemu_tztest.El3.{Reg, Regs, El3State}
use qemu_tztest.El1.{El1State}
use qemu_tztest.System.Machine.{view_of, block}
use qemu_tztest.System.Machine.Registers.{Stores}
use qemu_tztest.System.Worlds.{ns_svc, ns_run, start}
use qemu_tztest.System.Worlds.Local.{checks_at}
use qemu_tztest.System.Worlds.Ready.{IsReady, counted}
use qemu_tztest.System.Worlds.Remote.{Advances, run-Advances}
use qemu_tztest.System.Worlds.Interop.{interop_test-IsReady}

counted-add : (n m : ℕ) (c : SysControl) → counted (n + m) c ≡ counted m (counted n c)
unfolding counted
counted-add zero m c = let shift : 0 + m ≡ m = omega arith in ap (λ k. counted k c) shift
counted-add (suc n) m c =
    let shift : suc n + m ≡ suc (n + m) = omega arith in
    ap (λ k. counted k c) shift ∙ counted-add n m (checked true c)

counted-counts :
    (n : ℕ) (c : SysControl)
    → c.test_cntl.test_count < 2 ^ 32
    → ((counted n c).test_cntl.test_count ≡ u32 (c.test_cntl.test_count + n))
      × ((counted n c).test_cntl.fail_count ≡ c.test_cntl.fail_count)
unfolding counted
counted-counts zero c small = (omega arith, refl)
counted-counts (suc n) c small =
    let r = counted-counts n (checked true c) (omega arith) in (r.0 ∙ omega arith, r.1)

-- Tests that name EL0 or EL1 of either world, and the end of the table.
abbrev pub is_table : List Case → Bool
is_table [] = false
is_table (c ∷ cs) =
    if c.fid == 0 then true else (ltb c.fid 6 && (ltb c.el 2 && ltb c.state 2)) && is_table cs

abbrev pub checks : List Case → ℕ
checks [] = 0
checks (c ∷ cs) = if c.fid == 0 then 0 else checks_at c.el c.fid + checks cs

tztest_lem : (is_table tztest ≡ true) × (checks tztest ≡ 80)
tztest_lem = (refl, refl)

module _ (msr : Reg → ℕ → Regs → Regs) (tests3 : List (Option (TestFn El3State)))
    (svc3 : ℕ → Desc → El3State → Option (Desc × El3State))
    (svc1 : ℕ → Desc → El1State → Option (Desc × El1State)) (stack : Desc)
    (fuel pc iss far junk : ℕ) (stores : Stores msr) where
  abbrev run_here : (fid el state arg : ℕ) → El1State → Option El1State
  run_here = ns_run msr tests3 svc3 svc1 stack fuel pc iss far junk

  abbrev svc_here : ℕ → Desc → El1State → Option (ℕ × Desc × El1State)
  svc_here = ns_svc msr tests3 svc3 svc1 stack fuel pc iss far junk

  abbrev Moves : ℕ → El1State → Option El1State → Type 0
  Moves = Advances msr tests3 svc3 svc1 stack fuel pc iss far junk stores

  run_cases-Advances :
      (cs : List Case) (s : El1State)
      → is_table cs ≡ true
      → IsReady nonsecure secure (view_of s)
      → Moves (checks cs) s (run_cases block svc_here stack run_here cs s)
  unfolding run_cases
  run_cases-Advances [] s ok ready = cc
  run_cases-Advances (c ∷ cs) s ok ready = elim (Bool-cases (c.fid == 0)) [
    | inl last ↦
        rw last
          (record { after = s; returns = refl; ready = ready; block = unfold counted in refl })
    | inr more ↦
        let a =
          run-Advances msr tests3 svc3 svc1 stack fuel pc iss far junk stores c.fid c.el c.state
            c.arg s (ground arith) (ground arith) (ground arith) ready in
        let b = run_cases-Advances cs a.after (ground arith) a.ready in
        rw more (record {
          after = b.after;
          returns = rw a.returns b.returns;
          ready = b.ready;
          block =
              b.block
              ∙ ap (counted (checks cs)) a.block
              ∙ sym (counted-add (checks_at c.el c.fid) (checks cs) s.syscntl);
        })
  ]

  -- From a machine on which both worlds can run their tests, and whose processor does not implement SCR.SMD, the whole
  -- run returns: 81 tests are counted, of which
  -- none failed, and the machine is ready again.
  pub start-passes :
      (s : El1State)
      → IsReady nonsecure secure (view_of s)
      → s.syscntl.test_cntl.test_count < 2 ^ 32
      → (t : El1State) × (start msr tests3 svc3 svc1 stack fuel pc iss far junk s ≡ some t)
        × IsReady nonsecure secure (view_of t)
        × (t.syscntl.test_cntl.test_count ≡ u32 (s.syscntl.test_cntl.test_count + 81))
        × (t.syscntl.test_cntl.fail_count ≡ s.syscntl.test_cntl.fail_count)
  unfolding start tztest_start count_verdict
  start-passes s ready small =
      let i = interop_test-IsReady msr tests3 svc3 svc1 stack fuel pc iss far junk stores s ready in
      let r = run_cases-Advances tztest i.0 tztest_lem.0 i.2 in
      let n = counted-counts 80 (count_verdict true s.syscntl) (omega arith) in
      let end = r.block ∙ ap (counted 80) i.3 in
      (
        r.after,
        rw i.1 r.returns,
        r.ready,
        ap (λ (c : SysControl). c.test_cntl.test_count) end ∙ n.0 ∙ omega arith,
        ap (λ (c : SysControl). c.test_cntl.fail_count) end ∙ n.1,
      )
