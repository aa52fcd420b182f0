-- ===== src/Mem32/Map.antt =====
-- mem_map_pa and mem_unmap_va of ARMv7 below a table that exists, by what lookups give afterwards.
use mathlib.Core.Path.{subst}
use qemu_tztest.Common.{
  true, ℕ, suc, ◌+◌, ◌*◌, ◌/◌, ◌%◌, ◌^◌, ◌<◌, ◌≡◌, ◌≢◌, ◌⊎◌, refl, arith, ap, ◌∙◌, sym, false, inl,
  inr, Option, some, ◌==◌, bit_and, bit_or, Bool-cases,
}
use qemu_tztest.Mem32.{
  MemState, store, l1_pte, l2_pte, no_table, link_new, map_page, mem_map_pa, mem_unmap_va,
  mem_lookup_pa, pte_page, pte_access,
}
use qemu_tztest.Mem32.Decode.{l1_pte_lem, l2_pte_lem, no_table_lem, entry_lem}
use qemu_tztest.Mem32.Lookup.{
  slot, megabyte, IsTables, mem_lookup_pa-found, update-same, update-other, entry_of, Present,
  store-Written,
}

-- The two addresses that each function computes.
pub l1_pte-slot :
    {root : ℕ} {s : MemState} (v : ℕ)
    → IsTables root s
    → l1_pte s.mem_pgtbl_base v ≡ slot root (megabyte v)
l1_pte-slot {root} v t = ap (λ b. l1_pte b v) t.based ∙ l1_pte_lem root v t.narrow

l2_pte-entry :
    {root : ℕ} {s : MemState} (v : ℕ)
    → IsTables root s
    → l2_pte (s.mem (l1_pte s.mem_pgtbl_base v)) v ≡ entry_of root v s
l2_pte-entry {root} {s} v t =
    ap (λ a. l2_pte (s.mem a) v) (l1_pte-slot v t) ∙ l2_pte_lem (s.mem (slot root (megabyte v))) v

pub no_table-entry :
    {root : ℕ} {s : MemState} (v : ℕ)
    → IsTables root s
    → no_table (s.mem (l1_pte s.mem_pgtbl_base v)) ≡ (s.mem (slot root (megabyte v)) % 4 == 0)
no_table-entry {root} {s} v t =
    ap (λ a. no_table (s.mem a)) (l1_pte-slot v t) ∙ no_table_lem (s.mem (slot root (megabyte v)))

abbrev pub descriptor : (p attr : ℕ) → ℕ
descriptor p attr = bit_or (bit_and p 0xFFFFF000) (bit_or (bit_or pte_page pte_access) attr)

-- One word of memory may differ, and no variable does.
pub record OneWord (entry : ℕ) (s after : MemState) : Type 0 where
  pub based : after.mem_pgtbl_base ≡ s.mem_pgtbl_base
  pub next : after.mem_next_pa ≡ s.mem_next_pa
  pub heap : after.mem_heap_pool ≡ s.mem_heap_pool
  pub same : (a : ℕ) → entry ≢ a → after.mem a ≡ s.mem a

store-OneWord : (entry x : ℕ) (s : MemState) → OneWord entry s (store entry x s)
unfolding store
store-OneWord entry x s = record {
  based = refl;
  next = refl;
  heap = refl;
  same = update-other s.mem entry x;
}

OneWord-trans :
    {entry : ℕ} {s t u : MemState} → OneWord entry t u → OneWord entry s t → OneWord entry s u
OneWord-trans b a = record {
  based = b.based ∙ a.based;
  next = b.next ∙ a.next;
  heap = b.heap ∙ a.heap;
  same = λ w far. b.same w far ∙ a.same w far;
}

pub record Mapped (root v p : ℕ) (s : MemState) (result : Option MemState) : Type 0 where
  pub after : MemState
  pub returns : result ≡ some after
  pub inv' : IsTables root after
  pub writes : OneWord (entry_of root v s) s after
  pub hit :
      (w : ℕ)
      → w < 2 ^ 32
      → w / 4096 ≡ v / 4096
      → mem_lookup_pa w after ≡ p / 4096 * 4096 + w % 4096
  pub others :
      (w : ℕ) → w < 2 ^ 32 → w / 4096 ≢ v / 4096 → mem_lookup_pa w after ≡ mem_lookup_pa w s

-- The writes of the last level.
mem_map_pa-stores :
    {root : ℕ} {s : MemState} (fuel v p tblattr pgattr : ℕ) (t : IsTables root s)
    → Present root v s
    → mem_map_pa (suc fuel) v p tblattr pgattr s
      ≡ some (
          store
            (entry_of root v s)
            (descriptor p pgattr)
            (store (entry_of root v s) (bit_and p 0xFFFFF000) s))
unfolding mem_map_pa link_new map_page store
mem_map_pa-stores {root} {s} fuel v p tblattr pgattr t present =
    let valid : no_table (s.mem (l1_pte s.mem_pgtbl_base v)) ≡ false =
      no_table-entry v t ∙ ground (arith, present) in
    rw (valid, l2_pte-entry v t, update-same s.mem (entry_of root v s) (bit_and p 0xFFFFF000)) refl

-- Where the megabyte of the address has a table already, `mem_map_pa` returns, each address of the page is
-- translated to the same offset of the physical page, every other lookup is unchanged, and the tables stay
-- well formed.
pub mem_lookup_pa-mem_map_pa_arm :
    {root : ℕ} {s : MemState} (fuel v p tblattr pgattr : ℕ) (t : IsTables root s)
    → v < 2 ^ 32
    → p < 2 ^ 32
    → pgattr < 0x1000
    → Present root v s
    → Mapped root v p s (mem_map_pa (suc fuel) v p tblattr pgattr s)
mem_lookup_pa-mem_map_pa_arm {root} {s} fuel v p tblattr pgattr t narrow fits small present =
    let a = store-Written v (bit_and p 0xFFFFF000) narrow t present in
    let b = store-Written v (descriptor p pgattr) narrow a.inv' a.present' in
    let frame = entry_lem p pgattr fits small in
    let first = store (entry_of root v s) (bit_and p 0xFFFFF000) s in
    let last : OneWord (entry_of root v s) first
        (store (entry_of root v first) (descriptor p pgattr) first) =
      subst (λ e. OneWord e first (store (entry_of root v first) (descriptor p pgattr) first))
        a.same_entry (store-OneWord (entry_of root v first) (descriptor p pgattr) first) in
    record {
      after =
          store (entry_of root v (store (entry_of root v s) (bit_and p 0xFFFFF000) s))
            (descriptor p pgattr) (store (entry_of root v s) (bit_and p 0xFFFFF000) s);
      returns =
          mem_map_pa-stores fuel v p tblattr pgattr t present
          ∙ ap
              (λ e. some (
                store e (descriptor p pgattr) (store (entry_of root v s) (bit_and p 0xFFFFF000) s)))
              (sym a.same_entry);
      inv' = b.inv';
      writes = OneWord-trans last (store-OneWord (entry_of root v s) (bit_and p 0xFFFFF000) s);
      hit = λ w fit same. b.hit w fit same ∙ ap (λ f. f * 4096 + w % 4096) frame;
      others = λ w fit far. b.others w fit far ∙ a.others w fit far;
    }

pub record Cleared (root v : ℕ) (s : MemState) (result : ℕ × MemState) : Type 0 where
  pub code : result.0 ≡ 0
  pub inv' : IsTables root result.1
  pub writes : OneWord (entry_of root v s) s result.1
  pub hit : (w : ℕ) → w < 2 ^ 32 → w / 4096 ≡ v / 4096 → mem_lookup_pa w result.1 ≡ w % 4096
  pub others :
      (w : ℕ) → w < 2 ^ 32 → w / 4096 ≢ v / 4096 → mem_lookup_pa w result.1 ≡ mem_lookup_pa w s

pub mem_unmap_va-Cleared :
    {root : ℕ} {s : MemState} (v : ℕ) (t : IsTables root s)
    → v < 2 ^ 32
    → Present root v s
    → Cleared root v s (mem_unmap_va v s)
unfolding mem_unmap_va
mem_unmap_va-Cleared {root} {s} v t narrow present =
    let there : (s.mem (slot root (megabyte v)) % 4 == 0) ≡ false = ground (arith, present) in
    let b = store-Written v 0 narrow t present in
    rw (no_table-entry v t, there, l2_pte-entry v t)
      (record {
        code = refl;
        inv' = b.inv';
        writes = store-OneWord (entry_of root v s) 0 s;
        hit = λ w fit same. b.hit w fit same ∙ omega arith;
        others = b.others;
      })

pub mem_unmap_va-missing :
    {root : ℕ} {s : MemState} (v : ℕ) (t : IsTables root s)
    → (s.mem (slot root (megabyte v)) % 4 == 0) ≡ true
    → mem_unmap_va v s ≡ (0xFFFFFFFF, s)
unfolding mem_unmap_va
mem_unmap_va-missing v t gone = rw (no_table-entry v t, gone) refl

-- `mem_unmap_va` either refuses with -1 and changes nothing, where a lookup fails too; or it returns 0, leaves the
-- lookups of every other page as they are, and a lookup of this page gives the page offset instead of an error.
pub mem_lookup_pa-mem_unmap_va_arm :
    {root : ℕ} {s : MemState} (v : ℕ) (t : IsTables root s)
    → v < 2 ^ 32
    → ((mem_unmap_va v s ≡ (0xFFFFFFFF, s)) × (mem_lookup_pa v s ≡ 0xFFFFFFFF))
      ⊎ Cleared root v s (mem_unmap_va v s)
mem_lookup_pa-mem_unmap_va_arm {root} {s} v t narrow =
    elim (Bool-cases (s.mem (slot root (megabyte v)) % 4 == 0)) [
      | inl gone ↦ inl (mem_unmap_va-missing v t gone, mem_lookup_pa-found v t ∙ rw gone refl)
      | inr there ↦ inr (mem_unmap_va-Cleared v t narrow (ground arith))
    ]
