-- ===== src/System/Arm.antt =====
-- The CPSR of a nonsecure ARMv7 processor, as check_mask_bits of tztest_el1_nsec.c writes and reads it.
pub mod Pl1
pub mod MaskBits
pub mod Examples
use qemu_tztest.Common.{
  ℕ, ◌+◌, ◌*◌, ◌/◌, ◌%◌, ◌^◌, ◌<◌, ◌≡◌, refl, arith, ap, ◌∙◌, sym, Bool, true, false, ◌||◌, inl,
  inr, Bool-cases, ◌==◌, if◌then◌else◌, bit_or,
}
use qemu_tztest.Bits.Fields.{bit}
use qemu_tztest.Bits.Masks.{set_bit6, set_bit8}
use qemu_tztest.Tztest.Arm.{cpsr_f, cpsr_a}

-- MSR CPSR in nonsecure state without the Virtualization Extensions: F is written if SCR.FW is set, A if
-- SCR.AW is set.
abbrev pub pick : (allowed new old : ℕ) → ℕ
pick allowed new old = if allowed == 1 then new else old

abbrev pub merged : (val scr cpsr : ℕ) → ℕ
merged val scr cpsr =
    cpsr / 512 * 512
    + pick (bit 5 scr) (bit 8 val) (bit 8 cpsr) * 256
    + bit 7 cpsr * 128
    + pick (bit 4 scr) (bit 6 val) (bit 6 cpsr) * 64
    + cpsr % 64

-- What the test relies on: the rule for a value that differs from the CPSR in F and A at most.
pub record Guards (write : (val scr cpsr : ℕ) → ℕ) : Type 0 where
  pub masked :
      (val scr cpsr : ℕ)
      → val % 64 ≡ cpsr % 64
      → bit 7 val ≡ bit 7 cpsr
      → val / 512 ≡ cpsr / 512
      → write val scr cpsr ≡ merged val scr cpsr

-- The write is accepted, or the bit was set anyway.
abbrev pub shows : (old allowed : ℕ) → Bool
shows old allowed = (old == 1) || (allowed == 1)

-- The two bits of a merged value, and the rest of it.
merged-parts :
    (val scr cpsr : ℕ)
    → (merged val scr cpsr / 512 ≡ cpsr / 512)
      × (bit 7 (merged val scr cpsr) ≡ bit 7 cpsr)
      × (merged val scr cpsr % 64 ≡ cpsr % 64)
      × (bit 6 (merged val scr cpsr) ≡ pick (bit 4 scr) (bit 6 val) (bit 6 cpsr))
      × (bit 8 (merged val scr cpsr) ≡ pick (bit 5 scr) (bit 8 val) (bit 8 cpsr))
merged-parts val scr cpsr =
    let f : pick (bit 4 scr) (bit 6 val) (bit 6 cpsr) < 2 = ground arith in
    let a : pick (bit 5 scr) (bit 8 val) (bit 8 cpsr) < 2 = ground arith in parts f a
  where
    parts :
        {f a : ℕ}
        → f < 2
        → a < 2
        → let m = cpsr / 512 * 512 + a * 256 + bit 7 cpsr * 128 + f * 64 + cpsr % 64 in
          (m / 512 ≡ cpsr / 512)
          × (bit 7 m ≡ bit 7 cpsr)
          × (m % 64 ≡ cpsr % 64)
          × (bit 6 m ≡ f)
          × (bit 8 m ≡ a)
    parts f a = (omega arith, omega arith, omega arith, omega arith, omega arith)

-- Two registers with the same parts are the same.
same_parts :
    (x y : ℕ)
    → x / 512 ≡ y / 512
    → bit 7 x ≡ bit 7 y
    → x % 64 ≡ y % 64
    → bit 6 x ≡ bit 6 y
    → bit 8 x ≡ bit 8 y
    → x ≡ y
same_parts x y h i l f a = omega arith

-- Two registers that differ in F and A at most.
abbrev Agree : (x y : ℕ) → Type 0
Agree x y = (x / 512 ≡ y / 512) × (bit 7 x ≡ bit 7 y) × (x % 64 ≡ y % 64)

pick_same : (e n : ℕ) → pick e n n ≡ n
pick_same e n = ground arith

pick_back : (e n o : ℕ) → pick e o (pick e n o) ≡ o
pick_back e n o = ground arith

pick_shows : (e b : ℕ) → (pick e 1 b == 1) ≡ shows b e
pick_shows e b = ground arith

==-==_lem : (r v b : ℕ) → (r ≡ v → b ≡ 1) → (b ≡ 1 → r ≡ v) → (r == v) ≡ (b == 1)
==-==_lem r v b to from = elim (Bool-cases (b == 1)) [
  | inl on ↦ let same = from (ground arith) in ground arith
  | inr off ↦ elim (Bool-cases (r == v)) [
    | inl e ↦ let one = to (ground arith) in absurd (ground arith)
    | inr ne ↦ rw (off, ne) refl
  ]
]

module _ (write : (val scr cpsr : ℕ) → ℕ) (guards : Guards write) (scr : ℕ) where
  write-parts :
      (val c : ℕ)
      → Agree val c
      → Agree (write val scr c) c
        × (bit 6 (write val scr c) ≡ pick (bit 4 scr) (bit 6 val) (bit 6 c))
        × (bit 8 (write val scr c) ≡ pick (bit 5 scr) (bit 8 val) (bit 8 c))
  write-parts val c (h, i, l) =
      let p = merged-parts val scr c in
      rw (guards.masked val scr c l i h) ((p.0, p.1, p.2), p.3, p.4)

  -- Writing the old value back restores it.
  pub write-back : (val c : ℕ) → Agree val c → write c scr (write val scr c) ≡ c
  write-back val c g =
      let p = write-parts val c g in
      let r = write val scr c in
      let q = write-parts c r (sym p.0.0, sym p.0.1, sym p.0.2) in
      same_parts (write c scr r) c (q.0.0 ∙ p.0.0) (q.0.1 ∙ p.0.1) (q.0.2 ∙ p.0.2)
        (q.1 ∙ ap (pick (bit 4 scr) (bit 6 c)) p.1 ∙ pick_back (bit 4 scr) (bit 6 val) (bit 6 c))
        (q.2 ∙ ap (pick (bit 5 scr) (bit 8 c)) p.2 ∙ pick_back (bit 5 scr) (bit 8 val) (bit 8 c))

  pub with_f :
      (c : ℕ)
      → Agree (bit_or c cpsr_f) c
        × (bit 6 (bit_or c cpsr_f) ≡ 1)
        × (bit 8 (bit_or c cpsr_f) ≡ bit 8 c)
  with_f c =
      let set = set_bit6 c in ((omega arith, omega arith, omega arith), omega arith, omega arith)

  pub with_a :
      (c : ℕ)
      → Agree (bit_or c cpsr_a) c
        × (bit 8 (bit_or c cpsr_a) ≡ 1)
        × (bit 6 (bit_or c cpsr_a) ≡ bit 6 c)
  with_a c =
      let set = set_bit8 c in ((omega arith, omega arith, omega arith), omega arith, omega arith)

  write-same :
      (v c : ℕ)
      → Agree v c
      → pick (bit 4 scr) (bit 6 v) (bit 6 c) ≡ bit 6 v
      → pick (bit 5 scr) (bit 8 v) (bit 8 c) ≡ bit 8 v
      → write v scr c ≡ v
  write-same v c g f a =
      let p = write-parts v c g in
      same_parts (write v scr c) v (p.0.0 ∙ sym g.0) (p.0.1 ∙ sym g.1) (p.0.2 ∙ sym g.2) (p.1 ∙ f)
        (p.2 ∙ a)

  -- Setting F reads back where SCR.FW is set, or F was.
  pub reads_f :
      (c : ℕ) → (write (bit_or c cpsr_f) scr c == bit_or c cpsr_f) ≡ shows (bit 6 c) (bit 4 scr)
  reads_f c =
      let v = bit_or c cpsr_f in
      let g = with_f c in
      let r = write v scr c in
      let p = write-parts v c g.0 in
      let chosen = p.1 ∙ ap (λ x. pick (bit 4 scr) x (bit 6 c)) g.1 in
      ==-==_lem r v (bit 6 r) (λ e. ap (bit 6) e ∙ g.1)
        (λ one.
          write-same v c g.0 (sym p.1 ∙ one ∙ sym g.1) (
            ap (λ x. pick (bit 5 scr) x (bit 8 c)) g.2 ∙ pick_same (bit 5 scr) (bit 8 c) ∙ sym g.2))
      ∙ ap (λ x. x == 1) chosen
      ∙ pick_shows (bit 4 scr) (bit 6 c)

  -- The same for A and SCR.AW.
  pub reads_a :
      (c : ℕ) → (write (bit_or c cpsr_a) scr c == bit_or c cpsr_a) ≡ shows (bit 8 c) (bit 5 scr)
  reads_a c =
      let v = bit_or c cpsr_a in
      let g = with_a c in
      let r = write v scr c in
      let p = write-parts v c g.0 in
      let chosen = p.2 ∙ ap (λ x. pick (bit 5 scr) x (bit 8 c)) g.1 in
      ==-==_lem r v (bit 8 r) (λ e. ap (bit 8) e ∙ g.1)
        (λ one.
          write-same v c g.0
            (ap (λ x. pick (bit 4 scr) x (bit 6 c)) g.2 ∙ pick_same (bit 4 scr) (bit 6 c) ∙ sym g.2)
            (sym p.2 ∙ one ∙ sym g.1))
      ∙ ap (λ x. x == 1) chosen
      ∙ pick_shows (bit 5 scr) (bit 8 c)
