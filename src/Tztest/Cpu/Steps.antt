-- ===== src/Tztest/Cpu/Steps.antt =====
-- Rules for the checks that the test functions are made of: an assignment that traps, an instruction, a
-- disabled floating-point instruction.
use qemu_tztest.Common.{
  ℕ, ◌≡◌, refl, ap, ◌∙◌, sym, true, false, ◌&&◌, Option, none, some, ◌==◌, u32,
}
use qemu_tztest.Interop.{SysControl, ec_simd, excp_action_skip}
use qemu_tztest.El3.{log_exception}
use qemu_tztest.Tztest.Check.{
  Shared, modify, enable_excp_log, excp_reset, saw_exception, test_condition, test_exception,
  test_no_exception,
}
use qemu_tztest.Tztest.Cpu.{Cpu, Insn, fcmp, with_local, test_exception_value, check_fp}
use qemu_tztest.Tztest.Cpu.Trace.{
  View, with_block, armed, passed, Route, Ends, Gets, Traps, Shows, modify-armed, settle-trapped,
  expect, expect_none,
}

module _ {S : Type 0} (view : S → View) where
  Shows-with_local :
      (sh : Shared S) → Shows view sh → Shows (λ (t : ℕ × S). view t.1) (with_local sh)
  unfolding with_local
  Shows-with_local sh shows = record {
    control = λ t. shows.control t.1;
    put = λ c t. shows.put c t.1;
  }

  -- An assignment that traps leaves some value in the variable.
  pub expect_value :
      (sh : Shared S)
      → Shows view sh
      → (ec el : ℕ) (fn : S → Option (ℕ × S)) (s : S) (v : View) → view s ≡ v
      → ((el == el) && (u32 ec == ec)) ≡ true
      → ((u : S) → view u ≡ armed v → Traps (λ (t : ℕ × S). view t.1) (fn u) ec el (armed v))
      → (x : ℕ) × Gets view (test_exception_value sh fn ec el s) x (passed v)
  unfolding test_exception_value
  expect_value sh shows ec el fn s v at small traps =
      let (t, e, seen) =
        expect (λ (t : ℕ × S). view t.1) (with_local sh) (Shows-with_local sh shows) ec el
          (λ t. fn t.1) (0, s) v at small (λ u. traps u.1) in
      (t.0, (t.1, e, seen))

  -- What the instructions do: they take the routed exception, which is logged and stepped over if
  -- skipping is on, or are executed and leave the registers alone.
  pub record Executes (exec : Insn → S → Option S) (route : Insn → View → Route) : Type 0 where
    pub trapped :
        (i : Insn) (ec el : ℕ) (s : S) (v : View)
        → view s ≡ v
        → v.block.excp.action ≡ excp_action_skip
        → route i v ≡ some (ec, el)
        → Traps view (exec i s) ec el v
    pub executed :
        (i : Insn) (s : S) (v : View) → view s ≡ v → route i v ≡ none → Ends view (exec i s) v

  module _ (cpu : Cpu S) (shows : Shows view cpu.shared) (route : Insn → View → Route)
      (executes : Executes cpu.exec route) where
    pub expect_insn :
        (i : Insn) (ec el : ℕ) (s : S) (v : View)
        → view s ≡ v
        → ((el == el) && (u32 ec == ec)) ≡ true
        → route i (armed v) ≡ some (ec, el)
        → Ends view (test_exception cpu.shared (cpu.exec i) ec el s) (passed v)
    expect_insn i ec el s v at small routed =
        expect view cpu.shared shows ec el (cpu.exec i) s v at small
          (λ u seen. executes.trapped i ec el u (armed v) seen refl routed)

    pub expect_executed :
        (i : Insn) (s : S) (v : View)
        → view s ≡ v
        → v.block.excp.taken ≡ false
        → route i (armed v) ≡ none
        → Ends view (test_no_exception cpu.shared (cpu.exec i) s) (passed v)
    expect_executed i s v at quiet routed =
        expect_none view cpu.shared shows (cpu.exec i) s v at quiet
          (λ u seen. executes.executed i u (armed v) seen routed)

    -- The block for a disabled floating-point instruction, where `restore` changes `v` to `w`.
    pub expect_fp :
        (restore : S → Option S) (el : ℕ) (s : S) (v w : View)
        → view s ≡ v
        → (el == el) ≡ true
        → route fcmp (armed v) ≡ some (ec_simd, el)
        → w.block ≡ v.block
        → ((u : S) (c : SysControl)
            → view u ≡ with_block c v
            → Ends view (restore u) (with_block c w))
        → Ends view (check_fp cpu restore el s) (passed w)
    unfolding check_fp
    expect_fp restore el s v w at small routed same restores =
        let (u, iss, far, state, e, seen) =
          executes.trapped fcmp ec_simd el (modify cpu.shared enable_excp_log s) (armed v)
            (modify-armed view cpu.shared shows s v at) refl routed in
        let (t, f, shown) = restores u _ seen in
        (
          modify cpu.shared excp_reset (test_condition cpu.shared (saw_exception ec_simd el) t),
          rw (e, f),
          settle-trapped view cpu.shared shows ec_simd iss far el state t w (rw small) (
              shown
              ∙ ap
                  (λ c.
                    with_block
                      (log_exception ec_simd iss far el state (armed (with_block c v)).block) w)
                  (sym same)),
        )
