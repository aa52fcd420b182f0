-- ===== src/Mem32/Lookup.antt =====
-- What a lookup gives after a page has been mapped or unmapped below a table that exists.
use qemu_tztest.Common.{
  ℕ, ◌+◌, ◌*◌, ◌/◌, ◌%◌, ◌^◌, ◌<◌, ◌≡◌, ◌≢◌, refl, arith, ap, ◌∙◌, sym, false, inl, inr, ◌==◌,
  if◌then◌else◌, Bool-cases,
}
use qemu_tztest.Mem64.{update}
use qemu_tztest.Mem32.{MemState, store, mem_lookup_pa}
use qemu_tztest.Mem32.Decode.{coarse, l1_pte_lem, l2_pte_lem, no_table_lem, address_lem}

abbrev pub slot : (root i : ℕ) → ℕ
slot root i = root * 0x4000 + i * 4

-- The megabyte of an address, and its second-level entry in table `c`.
abbrev pub megabyte : ℕ → ℕ
megabyte w = w / 2 ^ 20 % 4096

abbrev pub leaf : (c w : ℕ) → ℕ
leaf c w = c * 1024 + w / 4096 % 256 * 4

-- The first-level table lies apart from the second-level ones, and no two megabytes share one.
pub record IsTables (root : ℕ) (s : MemState) : Type 0 where
  pub based : s.mem_pgtbl_base ≡ root * 0x4000
  pub narrow : root < 2 ^ 18
  pub apart :
      (i : ℕ) → i < 4096 → s.mem (slot root i) % 4 ≢ 0 → coarse (s.mem (slot root i)) / 16 ≢ root
  pub distinct :
      (i j : ℕ)
      → i < 4096
      → j < 4096
      → s.mem (slot root i) % 4 ≢ 0
      → s.mem (slot root j) % 4 ≢ 0
      → coarse (s.mem (slot root i)) ≡ coarse (s.mem (slot root j))
      → i ≡ j

-- A lookup by quotients and remainders.
abbrev pub found : (root w : ℕ) → MemState → ℕ
found root w s =
    if s.mem (slot root (megabyte w)) % 4 == 0
    then 0xFFFFFFFF
    else s.mem (leaf (coarse (s.mem (slot root (megabyte w)))) w) / 4096 % 2 ^ 20 * 4096 + w % 4096

pub mem_lookup_pa-found :
    {root : ℕ} {s : MemState} (w : ℕ) → IsTables root s → mem_lookup_pa w s ≡ found root w s
unfolding mem_lookup_pa
mem_lookup_pa-found {root} {s} w t =
    rw
      (
        t.based,
        l1_pte_lem root w t.narrow,
        no_table_lem (s.mem (slot root (megabyte w))),
        l2_pte_lem (s.mem (slot root (megabyte w))) w,
        address_lem (s.mem (leaf (coarse (s.mem (slot root (megabyte w)))) w)) w,
      )
      refl

pub update-same : (f : ℕ → ℕ) (a v : ℕ) → update f a v a ≡ v
update-same f a v = ground arith

pub update-other : (f : ℕ → ℕ) (a v b : ℕ) → a ≢ b → update f a v b ≡ f b
update-other f a v b no' = ground arith

-- The entry of `v` in the table of its megabyte.
abbrev pub entry_of : (root v : ℕ) → MemState → ℕ
entry_of root v s = leaf (coarse (s.mem (slot root (megabyte v)))) v

abbrev pub Present : (root v : ℕ) → MemState → Type 0
Present root v s = s.mem (slot root (megabyte v)) % 4 ≢ 0

-- `after` is `s` with the entry of `v` written, and `x` is what a lookup reads there.
pub record Written (root v x : ℕ) (s after : MemState) : Type 0 where
  pub inv' : IsTables root after
  pub present' : Present root v after
  pub same_entry : entry_of root v after ≡ entry_of root v s
  pub hit :
      (w : ℕ)
      → w < 2 ^ 32
      → w / 4096 ≡ v / 4096
      → mem_lookup_pa w after ≡ x / 4096 % 2 ^ 20 * 4096 + w % 4096
  pub others :
      (w : ℕ) → w < 2 ^ 32 → w / 4096 ≢ v / 4096 → mem_lookup_pa w after ≡ mem_lookup_pa w s

module _ {root : ℕ} {s : MemState} (v x : ℕ) (narrow : v < 2 ^ 32) (t : IsTables root s)
    (present : Present root v s) where
  abbrev after : MemState
  after = store (entry_of root v s) x s

  kept : (i : ℕ) → i < 4096 → after.mem (slot root i) ≡ s.mem (slot root i)
  unfolding store
  kept i h =
      let off = t.apart (megabyte v) (omega arith) present in
      update-other s.mem (entry_of root v s) x (slot root i) (omega (arith, h, off))

  still : (i : ℕ) → i < 4096 → after.mem (slot root i) % 4 ≢ 0 → s.mem (slot root i) % 4 ≢ 0
  still i h p none' = p (ap (λ e. e % 4) (kept i h) ∙ none')

  after-IsTables : IsTables root after
  unfolding store
  after-IsTables = record {
    based = t.based;
    narrow = t.narrow;
    apart = λ i h p. rw (kept i h) (t.apart i h (still i h p));
    distinct = λ i j h k p q same.
        t.distinct i j h k (still i h p) (still j k q)
          (ap coarse (sym (kept i h)) ∙ same ∙ ap coarse (kept j k));
  }

  -- An entry is that of `v` only for the page of `v`.
  one_entry :
      (w : ℕ)
      → w < 2 ^ 32
      → w / 4096 ≢ v / 4096
      → Present root w s
      → entry_of root v s ≢ entry_of root w s
  one_entry w fits far p same =
      let tables : coarse (s.mem (slot root (megabyte v)))
          ≡ coarse (s.mem (slot root (megabyte w))) =
        omega (arith, same) in
      let halves =
        t.distinct (megabyte v) (megabyte w) (omega arith) (omega arith) present p tables in
      far (omega (arith, same, halves, tables))

  table_kept : (w : ℕ) → after.mem (slot root (megabyte w)) ≡ s.mem (slot root (megabyte w))
  table_kept w = kept (megabyte w) (omega arith)

  hit-after :
      (w : ℕ)
      → w < 2 ^ 32
      → w / 4096 ≡ v / 4096
      → mem_lookup_pa w after ≡ x / 4096 % 2 ^ 20 * 4096 + w % 4096
  unfolding store
  hit-after w fits same =
      let mb : megabyte w ≡ megabyte v = omega (arith, same) in
      let low : w / 4096 % 256 ≡ v / 4096 % 256 = ap (λ q. q % 256) same in
      let valid : (s.mem (slot root (megabyte v)) % 4 == 0) ≡ false = ground (arith, present) in
      mem_lookup_pa-found w after-IsTables
      ∙ rw (table_kept w, mb, low, valid, update-same s.mem (entry_of root v s) x) refl

  others-after :
      (w : ℕ) → w < 2 ^ 32 → w / 4096 ≢ v / 4096 → mem_lookup_pa w after ≡ mem_lookup_pa w s
  unfolding store
  others-after w fits far =
      mem_lookup_pa-found w after-IsTables
      ∙ elim (Bool-cases (s.mem (slot root (megabyte w)) % 4 == 0)) [
        | inl gone ↦ rw (table_kept w, gone) refl
        | inr there ↦
            let p : Present root w s = ground arith in
            rw
              (
                table_kept w,
                there,
                update-other s.mem (entry_of root v s) x (entry_of root w s)
                    (one_entry w fits far p),
              )
              refl
      ]
      ∙ sym (mem_lookup_pa-found w t)

  pub store-Written : Written root v x s (store (entry_of root v s) x s)
  store-Written = record {
    inv' = after-IsTables;
    present' = λ none'. present (sym (ap (λ e. e % 4) (table_kept v)) ∙ none');
    same_entry = ap (λ e. leaf (coarse e) v) (table_kept v);
    hit = hit-after;
    others = others-after;
  }
