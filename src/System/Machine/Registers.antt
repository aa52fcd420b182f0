-- ===== src/System/Machine/Registers.antt =====
-- The register file: what a write leaves, as the tests see it.
use qemu_tztest.Common.{ℕ, ◌≡◌, ◌≢◌}
use qemu_tztest.Tztest.Cpu.Trace.{View}
use qemu_tztest.El3.{Reg, cptr_el3, cpacr_el1, scr_el3, sctlr_el1, Regs}
use qemu_tztest.El1.{El1State}
use qemu_tztest.System.Machine.{view_of}

-- What is asked of the register file: a register keeps what is written to it, and only that changes.
pub record Stores (msr : Reg → ℕ → Regs → Regs) : Type 0 where
  pub reads_back : (r : Reg) (x : ℕ) (regs : Regs) → msr r x regs r ≡ x
  pub keeps : (r q : Reg) (x : ℕ) (regs : Regs) → q ≢ r → msr r x regs q ≡ regs q

module _ (msr : Reg → ℕ → Regs → Regs) where
  -- A write to the register file as the view shows it.
  abbrev pub written : Reg → ℕ → El1State → View
  written r x s = record {
    scr = msr r x s.monitor.regs scr_el3;
    cptr = msr r x s.monitor.regs cptr_el3;
    cpacr = msr r x s.monitor.regs cpacr_el1;
    sctlr = msr r x s.monitor.regs sctlr_el1;
    block = s.syscntl;
    worlds = (s.secure_state, s.parked);
  }

module _ (msr : Reg → ℕ → Regs → Regs) (stores : Stores msr) where
  pub written-scr :
      (x : ℕ) (s : El1State) → written msr scr_el3 x s ≡ record (view_of s) { scr = x }
  written-scr x s = rw (
    stores.reads_back scr_el3 x s.monitor.regs,
    stores.keeps scr_el3 cptr_el3 x s.monitor.regs (λ e. cc),
    stores.keeps scr_el3 cpacr_el1 x s.monitor.regs (λ e. cc),
    stores.keeps scr_el3 sctlr_el1 x s.monitor.regs (λ e. cc),
  )

  pub written-cptr :
      (x : ℕ) (s : El1State) → written msr cptr_el3 x s ≡ record (view_of s) { cptr = x }
  written-cptr x s = rw (
    stores.reads_back cptr_el3 x s.monitor.regs,
    stores.keeps cptr_el3 scr_el3 x s.monitor.regs (λ e. cc),
    stores.keeps cptr_el3 cpacr_el1 x s.monitor.regs (λ e. cc),
    stores.keeps cptr_el3 sctlr_el1 x s.monitor.regs (λ e. cc),
  )

  pub written-cpacr :
      (x : ℕ) (s : El1State) → written msr cpacr_el1 x s ≡ record (view_of s) { cpacr = x }
  written-cpacr x s = rw (
    stores.reads_back cpacr_el1 x s.monitor.regs,
    stores.keeps cpacr_el1 scr_el3 x s.monitor.regs (λ e. cc),
    stores.keeps cpacr_el1 cptr_el3 x s.monitor.regs (λ e. cc),
    stores.keeps cpacr_el1 sctlr_el1 x s.monitor.regs (λ e. cc),
  )

  pub written-sctlr :
      (x : ℕ) (s : El1State) → written msr sctlr_el1 x s ≡ record (view_of s) { sctlr = x }
  written-sctlr x s = rw (
    stores.reads_back sctlr_el1 x s.monitor.regs,
    stores.keeps sctlr_el1 scr_el3 x s.monitor.regs (λ e. cc),
    stores.keeps sctlr_el1 cptr_el3 x s.monitor.regs (λ e. cc),
    stores.keeps sctlr_el1 cpacr_el1 x s.monitor.regs (λ e. cc),
  )
