-- ===== src/Mem64/Leaf.antt =====
-- A write to one entry, and in particular to a last-level entry, seen through the tables.
use qemu_tztest.Common.{
  ℕ, zero, suc, ◌+◌, ◌*◌, ◌/◌, ◌%◌, ◌^◌, ◌≤◌, ◌<◌, ◌≡◌, refl, arith, ap, ◌∙◌, sym, ◌≢◌, Option,
  some, ◌>>=◌, inl, inr, Option-cases,
}
use qemu_tztest.Mem64.Table.{idx, slot, follow, table}
use qemu_tztest.Mem64.Decode.{idx-lt}
use qemu_tztest.Mem64.Tree.{IsTree, table-lvl, table_unique, idx-page}

pub record Writes (m m' : ℕ → ℕ) (a x : ℕ) : Type 0 where
  pub at : m' a ≡ x
  pub same : (b : ℕ) → b ≢ a → m' b ≡ m b

-- The page that an address lies in, of the 2 ^ 36 that the tables tell apart.
abbrev pub page : ℕ → ℕ
page v = v / 0x1000 % 2 ^ 36

pub table-step :
    (m m' : ℕ → ℕ) (root v i : ℕ)
    → table m' root v i ≡ table m root v i
    → ((q : ℕ) → table m root v i ≡ some q → m' (slot q v i) ≡ m (slot q v i))
    → table m' root v (suc i) ≡ table m root v (suc i)
unfolding table
table-step m m' root v i h same = elim (Option-cases (table m root v i)) [
  | inl e ↦ rw (h, e)
  | inr (q, e) ↦ rw (h, e, same q e)
]

module _ {m m' : ℕ → ℕ} {root next limit : ℕ} {lvl up : ℕ → ℕ}
    (tree : IsTree m root next limit lvl up) (p k x : ℕ) (small : k < 512)
    (write : Writes m m' (p * 0x1000 + k * 8) x) where
  pub other_page : (q l : ℕ) → l < 512 → q ≢ p → m' (q * 0x1000 + l * 8) ≡ m (q * 0x1000 + l * 8)
  other_page q l h ne = write.same _ (omega arith)

  -- The tables up to the level of the written one do not move.
  pub table-write : (w i : ℕ) → i ≤ lvl p → i ≤ 4 → table m' root w i ≡ table m root w i
  unfolding table
  table-write w zero h b = refl
  table-write w (suc i) h b =
      table-step m m' root w i (table-write w i (omega arith) (omega arith)) λ q e.
        let l : lvl q ≡ i = table-lvl tree w i q (omega arith) e in
        other_page q (idx w i) (idx-lt w i) (λ (s : q ≡ p). absurd (omega (arith, ap lvl s)))

module _ {m m' : ℕ → ℕ} {root next limit : ℕ} {lvl up : ℕ → ℕ}
    (tree : IsTree m root next limit lvl up) (v p x : ℕ) (at3 : table m root v 3 ≡ some p)
    (write : Writes m m' (slot p v 3) x) where
  last : lvl p ≡ 3
  last = table-lvl tree v 3 p (omega arith) at3

  outside : (q l : ℕ) → l < 512 → lvl q ≢ 3 → m' (q * 0x1000 + l * 8) ≡ m (q * 0x1000 + l * 8)
  outside q l h ne =
      other_page tree p (idx v 3) x (idx-lt v 3) write q l h (λ (s : q ≡ p). ne (ap lvl s ∙ last))

  pub Leaf-IsTree : IsTree m' root next limit lvl up
  Leaf-IsTree = record {
    rooted = tree.rooted;
    child_lvl = λ q k h b. rw (outside q k b (omega arith)) (tree.child_lvl q k h b);
    child_up = λ q k h b. rw (outside q k b (omega arith)) (tree.child_up q k h b);
    fresh_lvl = tree.fresh_lvl;
    fresh_zero = λ q k h b c.
        outside q k c (omega (arith, tree.fresh_lvl q h b)) ∙ tree.fresh_zero q k h b c;
  }

  pub Leaf-table : (w i : ℕ) → i ≤ 3 → table m' root w i ≡ table m root w i
  Leaf-table w i h =
      table-write tree p (idx v 3) x (idx-lt v 3) write w i (omega (arith, last)) (omega arith)

  pub Leaf-self : table m' root v 4 ≡ follow x
  unfolding table
  Leaf-self =
      ap (λ (o : Option ℕ). o >>= λ q. follow (m' (slot q v 3)))
        (Leaf-table v 3 (omega arith) ∙ at3)
      ∙ ap follow write.at

  pub Leaf-other : (w : ℕ) → page w ≢ page v → table m' root w 4 ≡ table m root w 4
  Leaf-other w ne = table-step m m' root w 3 (Leaf-table w 3 (omega arith)) λ q e.
      write.same _ λ (s : slot q w 3 ≡ slot p v 3).
        let same : q ≡ p = omega (arith, idx-lt w 3, idx-lt v 3) in
        let j = table_unique tree w v 3 q (omega arith) e (at3 ∙ ap some (sym same)) in
        ne (idx-page w v (j 0 (omega arith)) (j 1 (omega arith)) (j 2 (omega arith)) (omega arith))
