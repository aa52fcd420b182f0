-- ===== src/Mem32/Heap.antt =====
-- mem_heap_allocate of ARMv7 against page by page mapping.
use qemu_tztest.Common.{
  ℕ, zero, suc, ◌+◌, ◌*◌, ◌/◌, ◌^◌, ◌<◌, ◌≡◌, ◌⊎◌, refl, arith, ap, ◌∙◌, inl, inr, true, false,
  none, some, Option, Option-cases, Bool-cases, ltb, bit_or, u32, ◌>>=◌,
}
use qemu_tztest.Mem64.{page_size}
use qemu_tztest.Mem32.{
  MemState, store, link_new, no_table, mem_map_pa, mem_map_va, mem_allocate_pa, map_page, l1_pte,
  heap_loop, mem_heap_allocate, pte_user_rw, pte_table,
}

-- The result is a fault, or the heap pointer has not moved.
abbrev Keeps : Option MemState → MemState → Type 0
Keeps result s =
    (result ≡ none) ⊎ ((u : MemState) × (result ≡ some u) × (u.mem_heap_pool ≡ s.mem_heap_pool))

link_new-Keeps :
    (nested : ℕ → MemState → Option MemState) (pte tblattr : ℕ) (s : MemState)
    → ((q : ℕ) (t : MemState) → Keeps (nested q t) t)
    → Keeps (link_new nested pte tblattr s) s
unfolding link_new mem_allocate_pa store
link_new-Keeps nested pte tblattr s keeps = elim (Bool-cases (no_table (s.mem pte))) [
  | inl e ↦
      elim (keeps s.mem_next_pa (record s { mem_next_pa = u32 (s.mem_next_pa + page_size) })) [
        | inl stuck ↦ inl (rw (e, stuck) refl)
        | inr (u, ran, same) ↦
            let s3 = store pte s.mem_next_pa u in
            inr (
              store pte (bit_or (s3.mem pte) (bit_or pte_table tblattr)) s3,
              rw (e, ran) refl,
              same,
            )
      ]
  | inr e ↦ inr (s, rw e refl, refl)
]

mem_map_pa-Keeps :
    (f v p tblattr pgattr : ℕ) (s : MemState) → Keeps (mem_map_pa f v p tblattr pgattr s) s
unfolding mem_map_pa map_page store
mem_map_pa-Keeps zero v p tblattr pgattr s = inl refl
mem_map_pa-Keeps (suc f) v p tblattr pgattr s =
    elim (link_new-Keeps (λ q. mem_map_pa f q q 0 pte_user_rw) (l1_pte s.mem_pgtbl_base v) tblattr s
      (λ q t. mem_map_pa-Keeps f q q 0 pte_user_rw t)) [
        | inl stuck ↦ inl (rw stuck refl)
        | inr (u, ran, same) ↦
            inr (map_page v p pgattr (u.mem (l1_pte s.mem_pgtbl_base v)) u, rw ran refl, same)
      ]

mem_map_va-Keeps :
    (f v tblattr pgattr : ℕ) (s : MemState) → Keeps (mem_map_va f v tblattr pgattr s) s
unfolding mem_map_va mem_allocate_pa
mem_map_va-Keeps f v tblattr pgattr s = mem_map_pa-Keeps f v s.mem_next_pa tblattr pgattr _

-- `n` pages from `v` on, each mapped to the next page of the pool.
unfoldable pub map_pages : (n depth v : ℕ) → MemState → Option MemState
map_pages zero depth v s = some s
map_pages (suc n) depth v s = do
  s' ← mem_map_va depth v 0 pte_user_rw s
  map_pages n depth (u32 (v + 0x1000)) s'

-- One round of heap_loop.
heap_loop-round :
    (fuel depth len j : ℕ) (s : MemState)
    → ltb (j * 0x1000) len ≡ true
    → (j + 1) * 0x1000 < 2 ^ 32
    → heap_loop (suc fuel) depth len (j * 0x1000) s ≡ (
        mem_map_va depth (u32 (s.mem_heap_pool + j * 0x1000)) 0 pte_user_rw s >>= λ t.
        heap_loop fuel depth len ((j + 1) * 0x1000) t)
unfolding heap_loop
heap_loop-round fuel depth len j s more fits =
    let step : u32 (j * 0x1000 + 0x1000) ≡ (j + 1) * 0x1000 = omega arith in rw (more, step)

heap_loop-done :
    (fuel depth len j : ℕ) (s : MemState)
    → ltb (j * 0x1000) len ≡ false
    → heap_loop (suc fuel) depth len (j * 0x1000) s ≡ some (j * 0x1000, s)
unfolding heap_loop
heap_loop-done fuel depth len j s done = rw done refl

heap_loop-map_pages :
    (fuel depth len n h left j : ℕ) (s : MemState)
    → n ≡ (len + 0xFFF) / 0x1000
    → n < 2 ^ 20
    → n ≡ j + left
    → left < fuel
    → s.mem_heap_pool ≡ h
    → heap_loop fuel depth len (j * 0x1000) s
      ≡ (map_pages left depth (u32 (h + j * 0x1000)) s >>= λ u. some (n * 0x1000, u))
unfolding map_pages
heap_loop-map_pages zero depth len n h left j s count fits sum room at = absurd (omega arith)
heap_loop-map_pages (suc fuel) depth len n h zero j s count fits sum room at =
    let all : j ≡ n = omega arith in
    heap_loop-done fuel depth len j s (ground arith) ∙ ap (λ k. some (k * 0x1000, s)) all
heap_loop-map_pages (suc fuel) depth len n h (suc left) j s count fits sum room at =
    let rest = λ (t : MemState). heap_loop fuel depth len ((j + 1) * 0x1000) t in
    let next : u32 (u32 (h + j * 0x1000) + 0x1000) ≡ u32 (h + (j + 1) * 0x1000) = omega arith in
    heap_loop-round fuel depth len j s (ground arith) (omega arith)
    ∙ ap (λ k. mem_map_va depth (u32 (k + j * 0x1000)) 0 pte_user_rw s >>= rest) at
    ∙ elim (mem_map_va-Keeps depth (u32 (h + j * 0x1000)) 0 pte_user_rw s) [
      | inl stuck ↦ rw stuck refl
      | inr (u, ran, same) ↦
          rw (ran, next)
            (heap_loop-map_pages fuel depth len n h left (j + 1) u count fits (omega arith)
              (omega arith) (same ∙ at))
    ]

-- Whatever the tables and the pool hold, and where the length rounded up to pages is below 2 ^ 32, mem_heap_allocate
-- maps just those pages one after the other from the heap pointer on, returns the old pointer and moves it behind
-- them; it faults exactly where the page by page mapping does.
pub mem_heap_allocate-map_pages :
    (depth len : ℕ) (s : MemState)
    → (len + 0xFFF) / 0x1000 < 2 ^ 20
    → mem_heap_allocate depth len s ≡ (
        map_pages ((len + 0xFFF) / 0x1000) depth (u32 s.mem_heap_pool) s >>= λ u. some (
          s.mem_heap_pool,
          record u { mem_heap_pool = u32 (u.mem_heap_pool + (len + 0xFFF) / 0x1000 * 0x1000) },
        ))
unfolding mem_heap_allocate
mem_heap_allocate-map_pages depth len s fits =
    let n = (len + 0xFFF) / 0x1000 in
    let start : s.mem_heap_pool + 0 * 0x1000 ≡ s.mem_heap_pool = omega arith in
    let run =
      heap_loop-map_pages (len / 0x1000 + 2) depth len n s.mem_heap_pool n 0 s refl fits
        (omega arith) (omega arith) refl
      ∙ ap (λ a. map_pages n depth (u32 a) s >>= λ u. some (n * 0x1000, u)) start in
    elim (Option-cases (map_pages n depth (u32 s.mem_heap_pool) s)) [
      | inl stuck ↦ rw stuck (rw run (rw stuck refl))
      | inr (u, ran) ↦ rw ran (rw run (rw ran refl))
    ]
