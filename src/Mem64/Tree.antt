-- ===== src/Mem64/Tree.antt =====
-- The invariant of the page tables: every table has one level and one entry that leads to it, and
-- the pages that are not handed out yet are empty and are no tables.
use qemu_tztest.Common.{
  ℕ, zero, suc, ◌+◌, ◌*◌, ◌/◌, ◌%◌, ◌^◌, ◌≤◌, ◌<◌, ◌≡◌, arith, ap, ◌∙◌, sym, none, some, ◌==◌, inl,
  inr, Bool-cases, Option-cases, ==_iff,
}
use qemu_tztest.Mem64.Table.{frame, idx, slot, table}
use qemu_tztest.Mem64.Decode.{idx-lt}

-- `lvl` gives the level of a table's frame (above 3: no table), `up` the address of the entry that
-- leads to it; frames from `next` up to `limit` are the unused part of the pool.
pub record IsTree (m : ℕ → ℕ) (root next limit : ℕ) (lvl up : ℕ → ℕ) : Type 0 where
  pub rooted : lvl root ≡ 0
  pub child_lvl :
      (q k : ℕ)
      → lvl q < 3
      → k < 512
      → m (q * 0x1000 + k * 8) % 2 ≡ 1
      → lvl (frame (m (q * 0x1000 + k * 8))) ≡ suc (lvl q)
  pub child_up :
      (q k : ℕ)
      → lvl q < 3
      → k < 512
      → m (q * 0x1000 + k * 8) % 2 ≡ 1
      → up (frame (m (q * 0x1000 + k * 8))) ≡ q * 0x1000 + k * 8
  pub fresh_lvl : (q : ℕ) → next ≤ q → q < limit → 3 < lvl q
  pub fresh_zero : (q k : ℕ) → next ≤ q → q < limit → k < 512 → m (q * 0x1000 + k * 8) ≡ 0

-- One level of `table`, forwards and backwards.
module _ (m : ℕ → ℕ) (root v : ℕ) where
  pub record Came (i q : ℕ) : Type 0 where
    pub parent : ℕ
    pub at : table m root v i ≡ some parent
    pub valid : m (slot parent v i) % 2 ≡ 1
    pub is : q ≡ frame (m (slot parent v i))

  pub table_down :
      (i q : ℕ)
      → table m root v i ≡ some q
      → m (slot q v i) % 2 ≡ 1
      → table m root v (suc i) ≡ some (frame (m (slot q v i)))
  unfolding table
  table_down i q at valid = rw (at, valid)

  pub table_stop :
      (i q : ℕ) → table m root v i ≡ some q → m (slot q v i) % 2 ≡ 0 → table m root v (suc i) ≡ none
  unfolding table
  table_stop i q at invalid = rw (at, invalid)

  pub table-none : (i : ℕ) → table m root v i ≡ none → table m root v (suc i) ≡ none
  unfolding table
  table-none i at = rw at

  pub table_back : (i q : ℕ) → table m root v (suc i) ≡ some q → Came i q
  table_back i q h = elim (Option-cases (table m root v i)) [
    | inl e ↦ cc (table-none i e)
    | inr (p, e) ↦ elim (Bool-cases (m (slot p v i) % 2 == 0)) [
      | inl even ↦ cc (table_stop i p e (ground arith))
      | inr odd ↦
          let valid : m (slot p v i) % 2 ≡ 1 = ground arith in
          record { parent = p; at = e; valid = valid; is = cc (table_down i p e valid) }
    ]
  ]

module _ {m : ℕ → ℕ} {root next limit : ℕ} {lvl up : ℕ → ℕ}
    (tree : IsTree m root next limit lvl up) where
  pub table-lvl : (v i q : ℕ) → i ≤ 3 → table m root v i ≡ some q → lvl q ≡ i
  unfolding table
  table-lvl v zero q h e = ground (arith, tree.rooted)
  table-lvl v (suc i) q h e =
      let c = table_back m root v i q e in
      let l = table-lvl v i c.parent (omega arith) c.at in
      rw c.is
        (omega (arith, l, tree.child_lvl c.parent (idx v i) (omega arith) (idx-lt v i) c.valid))

  -- Two addresses that reach one table went through the same entries.
  pub table_unique :
      (v w i q : ℕ)
      → i ≤ 3
      → table m root v i ≡ some q
      → table m root w i ≡ some q
      → (j : ℕ) → j < i
      → idx v j ≡ idx w j
  table_unique v w zero q h e f j lt = absurd (omega arith)
  table_unique v w (suc i) q h e f j lt =
      let c = table_back m root v i q e in
      let d = table_back m root w i q f in
      let lc = table-lvl v i c.parent (omega arith) c.at in
      let ld = table-lvl w i d.parent (omega arith) d.at in
      let uc : up q ≡ slot c.parent v i =
        rw c.is (tree.child_up c.parent (idx v i) (omega arith) (idx-lt v i) c.valid) in
      let ud : up q ≡ slot d.parent w i =
        rw d.is (tree.child_up d.parent (idx w i) (omega arith) (idx-lt w i) d.valid) in
      let parents : c.parent ≡ d.parent = omega (arith, idx-lt v i, idx-lt w i) in
      let last : idx v i ≡ idx w i = omega arith in
      elim (Bool-cases (j == i)) [
        | inl now ↦ rw ((==_iff j i).0 now) last
        | inr earlier ↦
            table_unique v w i c.parent (omega arith) c.at (d.at ∙ ap some (sym parents)) j
              (ground arith)
      ]

-- Equal indices at the four levels: the same page of the 48-bit address space.
pub idx-page :
    (v w : ℕ)
    → idx v 0 ≡ idx w 0
    → idx v 1 ≡ idx w 1
    → idx v 2 ≡ idx w 2
    → idx v 3 ≡ idx w 3
    → v / 0x1000 % 2 ^ 36 ≡ w / 0x1000 % 2 ^ 36
unfolding idx
idx-page v w a b c d = omega arith
