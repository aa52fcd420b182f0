-- ===== src/Mem32/Grow.antt =====
-- A new second-level table for a megabyte that has none.
use qemu_tztest.Common.{
  ℕ, ◌+◌, ◌*◌, ◌/◌, ◌%◌, ◌^◌, ◌<◌, ◌≡◌, ◌≢◌, ◌⊎◌, refl, arith, ap, ◌∙◌, sym, inl, inr, ◌==◌, false,
  Bool-cases, bit_or, if◌then◌else◌,
}
use qemu_tztest.Bits.{bit_or-join}
use qemu_tztest.Mem32.{MemState, store, mem_lookup_pa, pte_table}
use qemu_tztest.Mem32.Decode.{coarse}
use qemu_tztest.Mem32.Lookup.{
  slot, megabyte, leaf, IsTables, mem_lookup_pa-found, update-same, update-other, Present,
}
use qemu_tztest.Mem32.Pool.{IsPool}

-- The descriptor of a table at page `n`.
pub table_descriptor : (n : ℕ) → bit_or (n * 0x1000) (bit_or pte_table 0) ≡ n * 0x1000 + 1
table_descriptor n = bit_or-join 12 n 1 (omega arith)

-- A lookup from the first-level entry.
abbrev read : (entry : ℕ) (mem : ℕ → ℕ) (w : ℕ) → ℕ
read entry mem w =
    if entry % 4 == 0
    then 0xFFFFFFFF
    else mem (leaf (coarse entry) w) / 4096 % 2 ^ 20 * 4096 + w % 4096

-- Linking a zero page `n` below the slot of `v` in state `s`: `n` was taken off the pool before.
module _ {root limit : ℕ} {s : MemState} (inv : IsPool root limit s) (v n : ℕ)
    (none' : s.mem (slot root (megabyte v)) % 4 ≡ 0) (taken : n < inv.next) (small : n < 2 ^ 20)
    (away : n / 4 ≢ root) (zeros : (k : ℕ) → k < 256 → s.mem (n * 4096 + k * 4) ≡ 0)
    (unused : (i : ℕ)
      → i < 4096
      → s.mem (slot root i) % 4 ≢ 0
      → coarse (s.mem (slot root i)) / 4 ≢ n) where
  abbrev at : ℕ
  at = slot root (megabyte v)

  abbrev pub linked : MemState
  linked = store at (n * 0x1000 + 1) (store at (n * 0x1000) s)

  here : linked.mem at ≡ n * 0x1000 + 1
  unfolding store
  here = update-same (store at (n * 0x1000) s).mem at (n * 0x1000 + 1)

  pub elsewhere : (a : ℕ) → at ≢ a → linked.mem a ≡ s.mem a
  unfolding store
  elsewhere a far =
      update-other (store at (n * 0x1000) s).mem at (n * 0x1000 + 1) a far
      ∙ update-other s.mem at (n * 0x1000) a far

  other_slot : (i : ℕ) → i < 4096 → i ≢ megabyte v → linked.mem (slot root i) ≡ s.mem (slot root i)
  other_slot i h far = elsewhere (slot root i) (λ same. far (omega (arith, same)))

  points : coarse (linked.mem at) ≡ n * 4
  points = ap coarse here ∙ omega arith

  -- What every present entry of the new state points to.
  pub kinds :
      (i : ℕ)
      → i < 4096
      → linked.mem (slot root i) % 4 ≢ 0
      → ((i ≡ megabyte v) × (coarse (linked.mem (slot root i)) ≡ n * 4))
        ⊎ ((i ≢ megabyte v)
            × (linked.mem (slot root i) ≡ s.mem (slot root i))
            × (s.mem (slot root i) % 4 ≢ 0))
  kinds i h p = elim (Bool-cases (i == megabyte v)) [
    | inl e ↦
        let same : i ≡ megabyte v = ground arith in
        inl (same, ap (λ j. coarse (linked.mem (slot root j))) same ∙ points)
    | inr ne ↦
        let far : i ≢ megabyte v = ground arith in
        inr (far, other_slot i h far, λ z. p (ap (λ e. e % 4) (other_slot i h far) ∙ z))
  ]

  pub linked-IsTables : IsTables root linked
  unfolding store
  linked-IsTables = record {
    based = inv.tables.based;
    narrow = inv.tables.narrow;
    apart = λ i h p. elim (kinds i h p) [
      | inl (same, points') ↦ λ bad. away (omega (arith, points', bad))
      | inr (far, kept, p') ↦ rw kept (inv.tables.apart i h p')
    ];
    distinct = λ i j h k p q same. elim (kinds i h p) [
      | inl (e, pi) ↦ elim (kinds j k q) [
        | inl (e', pj) ↦ e ∙ sym e'
        | inr (far, kept, q') ↦ absurd (unused j k q' (omega (arith, same, pi, ap coarse kept)))
      ]
      | inr (far, kept, p') ↦ elim (kinds j k q) [
        | inl (e', pj) ↦ absurd (unused i h p' (omega (arith, same, pj, ap coarse kept)))
        | inr (far', kept', q') ↦
            inv.tables.distinct i j h k p' q' (sym (ap coarse kept) ∙ same ∙ ap coarse kept')
      ]
    ];
  }

  -- The words of a page apart from the first-level table are as they were.
  pub page_kept :
      (m k : ℕ) → m / 4 ≢ root → k < 1024 → linked.mem (m * 4096 + k * 4) ≡ s.mem (m * 4096 + k * 4)
  page_kept m k off c = elsewhere (m * 4096 + k * 4) (λ same. off (omega (arith, same)))

  pub linked-Present : (w : ℕ) → Present root w s → Present root w linked
  linked-Present w p = elim (Bool-cases (megabyte w == megabyte v)) [
    | inl e ↦
        let same : megabyte w ≡ megabyte v = ground arith in
        absurd (p (ap (λ i. s.mem (slot root i) % 4) same ∙ none'))
    | inr ne ↦
        λ z. p (sym (ap (λ e. e % 4) (other_slot (megabyte w) (omega arith) (ground arith))) ∙ z)
  ]

  pub linked-here : Present root v linked
  linked-here z = absurd (omega (arith, here, z))

  unfoldable pub linked-IsPool : IsPool root limit linked
  unfolding store
  linked-IsPool = record {
    next = inv.next;
    tables = linked-IsTables;
    pool = inv.pool;
    bound = inv.bound;
    away = inv.away;
    fresh = λ m k h b c. page_kept m k (inv.away m h b) (omega arith) ∙ inv.fresh m k h b c;
    old = λ i h p. elim (kinds i h p) [
      | inl (same, points') ↦ inl (omega (arith, points'))
      | inr (far, kept, p') ↦ rw kept (inv.old i h p')
    ];
    ready = λ m h b. linked-Present (m * 0x1000) (inv.ready m h b);
  }

  -- Lookups in other megabytes are as before, and those of this one give the page offset.
  pub linked-others : (w : ℕ) → megabyte w ≢ megabyte v → mem_lookup_pa w linked ≡ mem_lookup_pa w s
  linked-others w far =
      let e = s.mem (slot root (megabyte w)) in
      let kept = other_slot (megabyte w) (omega arith) far in
      mem_lookup_pa-found w linked-IsTables
      ∙ ap (λ x. read x linked.mem w) kept
      ∙ elim (Bool-cases (e % 4 == 0)) [
        | inl gone ↦ rw gone refl
        | inr there ↦
            let off = inv.tables.apart (megabyte w) (omega arith) (ground (arith, there)) in
            rw (there, elsewhere (leaf (coarse e) w) (λ same. off (omega (arith, same)))) refl
      ]
      ∙ sym (mem_lookup_pa-found w inv.tables)

  pub linked-new : (w : ℕ) → megabyte w ≡ megabyte v → mem_lookup_pa w linked ≡ w % 4096
  linked-new w same =
      let e = n * 0x1000 + 1 in
      let valid : (e % 4 == 0) ≡ false = let one : e % 4 ≡ 1 = omega arith in rw one refl in
      let word : leaf (coarse e) w ≡ n * 4096 + w / 4096 % 256 * 4 = omega arith in
      let zero_word =
        page_kept n (w / 4096 % 256) away (omega arith) ∙ zeros (w / 4096 % 256) (omega arith) in
      mem_lookup_pa-found w linked-IsTables
      ∙ ap (λ x. read x linked.mem w) (ap (λ i. linked.mem (slot root i)) same ∙ here)
      ∙ rw (valid, word, zero_word) (omega arith)
