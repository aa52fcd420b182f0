-- ===== src/System/Worlds/Ready.antt =====
-- When both worlds can run their tests, and that a test and a switch of worlds leave them so.
use qemu_tztest.Common.{ℕ, zero, suc, ◌≡◌, refl, ap, ◌∙◌, true, Option, List, bit_and, bit_xor}
use qemu_tztest.Bits.Fields.{bit}
use qemu_tztest.Interop.{Desc, SysControl}
use qemu_tztest.Tztest.Run.{TestFn}
use qemu_tztest.Tztest.Check.Laws.{checked}
use qemu_tztest.Tztest.Cpu.Masks.{Fpen}
use qemu_tztest.Tztest.Cpu.Trace.{View, passes, passed}
use qemu_tztest.El3.{Reg, cptr_el3, cpacr_el1, scr_el3, Regs, El3State}
use qemu_tztest.El3.World.{monitor_switch}
use qemu_tztest.El1.{El1State}
use qemu_tztest.System.Machine.{view_of, enter}
use qemu_tztest.System.Machine.Registers.{Stores}
use qemu_tztest.System.Worlds.{change_places}
use qemu_tztest.System.Worlds.Local.{IsTestable}

-- World `here` runs and `there` waits.
pub record IsReady (here there : ℕ) (v : View) : Type 0 where
  pub test : IsTestable v
  pub parked_fpen : Fpen 1 1 v.worlds.1.cpacr
  pub now : v.worlds.0 ≡ here
  pub away : v.worlds.1.secure_state ≡ there

-- The control block after `n` checks that passed.
unfoldable pub counted : ℕ → SysControl → SysControl
counted zero c = c
counted (suc n) c = counted n (checked true c)

pub passes-counted : (n : ℕ) (v : View) → (passes n v).block ≡ counted n v.block
unfolding passes counted
passes-counted zero v = refl
passes-counted (suc n) v = passes-counted n (passed v)

passed-IsReady : {here there : ℕ} (v : View) → IsReady here there v → IsReady here there (passed v)
passed-IsReady v r = record {
  test = record { fpen = r.test.fpen; access = r.test.access; quiet = refl };
  parked_fpen = r.parked_fpen;
  now = r.now;
  away = r.away;
}

pub passes-IsReady :
    {here there : ℕ} (n : ℕ) (v : View) → IsReady here there v → IsReady here there (passes n v)
unfolding passes
passes-IsReady zero v r = r
passes-IsReady (suc n) v r = passes-IsReady n (passed v) (passed-IsReady v r)

-- What the two worlds' views have in common across a switch.
pub record Crossed (v w : View) : Type 0 where
  pub cptr : w.cptr ≡ v.cptr
  pub cpacr : w.cpacr ≡ v.worlds.1.cpacr
  pub parked : w.worlds.1.cpacr ≡ v.cpacr
  pub now : w.worlds.0 ≡ v.worlds.1.secure_state
  pub away : w.worlds.1.secure_state ≡ v.worlds.0
  pub block : w.block ≡ v.block

pub Crossed-IsReady :
    {here there : ℕ} (v w : View) → Crossed v w → IsReady here there v → IsReady there here w
Crossed-IsReady v w c r = record {
  test = record {
    fpen = (ap (bit 20) c.cpacr ∙ r.parked_fpen.0, ap (bit 21) c.cpacr ∙ r.parked_fpen.1);
    access = ap (bit 31) c.cptr ∙ r.test.access;
    quiet = ap (λ (b : SysControl). b.excp.taken) c.block ∙ r.test.quiet;
  };
  parked_fpen = (ap (bit 20) c.parked ∙ r.test.fpen.0, ap (bit 21) c.parked ∙ r.test.fpen.1);
  now = c.now ∙ r.away;
  away = c.away ∙ r.now;
}

module _ (msr : Reg → ℕ → Regs → Regs) (tests3 : List (Option (TestFn El3State)))
    (svc3 : ℕ → Desc → El3State → Option (Desc × El3State)) (stack : Desc) (fuel pc : ℕ) where
  -- The machine after an SMC for which the monitor switches worlds.
  abbrev pub turned : El1State → El1State
  turned s = record s {
    monitor =
        monitor_switch msr tests3 svc3 stack fuel
          (record (enter s) { secure_state = bit_xor s.monitor.secure_state 1; elr = pc });
  }

  pub turned-Crossed :
      (stores : Stores msr) (s : El1State) (e : ℕ)
      → Crossed (view_of s) (view_of (change_places (record (turned s) { elr = e })))
  turned-Crossed stores s e =
      let x = bit_xor (bit_and (s.monitor.regs scr_el3) 1) 1 in
      record {
        cptr = stores.keeps scr_el3 cptr_el3 x s.monitor.regs (λ h. cc);
        cpacr = refl;
        parked = stores.keeps scr_el3 cpacr_el1 x s.monitor.regs (λ h. cc);
        now = refl;
        away = refl;
        block = refl;
      }
