-- ===== src/Mem64/Grow.antt =====
-- Linking an empty page as a new table: the tree grows by one table and no translation changes.
use qemu_tztest.Common.{
  ℕ, zero, suc, ◌+◌, ◌*◌, ◌%◌, ◌≤◌, ◌<◌, ◌≡◌, arith, ap, ◌∙◌, sym, ◌≢◌, ◌⊎◌, true, false, some,
  ◌==◌, inl, inr, Bool-cases, Option-cases, ==_iff,
}
use qemu_tztest.Mem64.{update}
use qemu_tztest.Mem64.Table.{frame, idx, slot, table}
use qemu_tztest.Mem64.Decode.{idx-lt}
use qemu_tztest.Mem64.Tree.{IsTree, table-lvl, table_down, table_back}
use qemu_tztest.Mem64.Leaf.{Writes}

module _ {m m' : ℕ → ℕ} {root next limit : ℕ} {lvl up : ℕ → ℕ}
    (tree : IsTree m root next limit lvl up) (v i q x : ℕ) (upper : i < 3)
    (at : table m root v i ≡ some q) (empty : m (slot q v i) % 2 ≡ 0) (room : next < limit)
    (leads : frame x ≡ next) (valid : x % 2 ≡ 1) (write : Writes m m' (slot q v i) x) where
  level : lvl q ≡ i
  level = table-lvl tree v i q (omega arith) at

  new : 3 < lvl next
  new = tree.fresh_lvl next (omega arith) room

  abbrev pub new_lvl : ℕ → ℕ
  new_lvl = update lvl next (suc i)

  abbrev pub new_up : ℕ → ℕ
  new_up = update up next (slot q v i)

  -- An entry of the new page is clear.
  clear : (k : ℕ) → k < 512 → m' (next * 0x1000 + k * 8) ≡ 0
  clear k b =
      write.same _ (λ (s : next * 0x1000 + k * 8 ≡ slot q v i).
        let same : next ≡ q = omega (arith, idx-lt v i) in
        absurd (omega (arith, ap lvl same, new, level)))
      ∙ tree.fresh_zero next k (omega arith) room b

  not_new : (r : ℕ) → lvl r ≤ 3 → (next == r) ≡ false
  not_new r h = elim (Bool-cases (next == r)) [
    | inl e ↦ absurd (omega (arith, ap lvl ((==_iff next r).0 e), new))
    | inr ne ↦ ne
  ]

  record Child (r k : ℕ) : Type 0 where
    deeper : new_lvl (frame (m' (r * 0x1000 + k * 8))) ≡ suc (new_lvl r)
    from : new_up (frame (m' (r * 0x1000 + k * 8))) ≡ r * 0x1000 + k * 8

  -- An old table's entry, which is the new link or an old one.
  old-Child : (r k : ℕ) → lvl r < 3 → k < 512 → m' (r * 0x1000 + k * 8) % 2 ≡ 1 → Child r k
  old-Child r k h b odd = elim (Bool-cases (r * 0x1000 + k * 8 == slot q v i)) [
    | inl here ↦
        let e : r * 0x1000 + k * 8 ≡ slot q v i = (==_iff _ _).0 here in
        let same : r ≡ q = omega (arith, idx-lt v i) in
        let entry : m' (r * 0x1000 + k * 8) ≡ x = ap m' e ∙ write.at in
        let at_new : frame (m' (r * 0x1000 + k * 8)) ≡ next = ap frame entry ∙ leads in
        let r_level : lvl r ≡ i = ap lvl same ∙ level in
        let refl_new : (next == next) ≡ true = ground arith in
        record {
          deeper = rw (at_new, refl_new, not_new r (omega arith), r_level);
          from = rw (at_new, refl_new, e);
        }
    | inr there ↦
        let ne : r * 0x1000 + k * 8 ≢ slot q v i = λ e. cc (there, (==_iff _ _).1 e) in
        let entry : m' (r * 0x1000 + k * 8) ≡ m (r * 0x1000 + k * 8) = write.same _ ne in
        let odd' : m (r * 0x1000 + k * 8) % 2 ≡ 1 = omega arith in
        let l = tree.child_lvl r k h b odd' in
        let far = not_new (frame (m (r * 0x1000 + k * 8))) (omega (arith, l)) in
        record {
          deeper = rw (entry, far, not_new r (omega arith)) l;
          from = rw (entry, far) (tree.child_up r k h b odd');
        }
  ]

  any-Child : (r k : ℕ) → new_lvl r < 3 → k < 512 → m' (r * 0x1000 + k * 8) % 2 ≡ 1 → Child r k
  any-Child r k h b odd = elim (Bool-cases (next == r)) [
    | inl e ↦
        let same : next ≡ r = (==_iff next r).0 e in
        absurd (omega (arith, clear k b, ap (λ (t : ℕ). m' (t * 0x1000 + k * 8)) same))
    | inr ne ↦ let keep : new_lvl r ≡ lvl r = rw ne in old-Child r k (omega arith) b odd
  ]

  pub Grow-IsTree : IsTree m' root (suc next) limit new_lvl new_up
  Grow-IsTree = record {
    rooted = rw (not_new root (omega (arith, tree.rooted))) tree.rooted;
    child_lvl = λ r k h b odd. (any-Child r k h b odd).deeper;
    child_up = λ r k h b odd. (any-Child r k h b odd).from;
    fresh_lvl = λ r h b.
        let ne : (next == r) ≡ false = ground arith in rw ne (tree.fresh_lvl r (omega arith) b);
    fresh_zero = λ r k h b c.
        write.same _ (λ (s : r * 0x1000 + k * 8 ≡ slot q v i).
          let same : r ≡ q = omega (arith, idx-lt v i) in
          absurd (omega (arith, ap lvl same, tree.fresh_lvl r (omega arith) b, level)))
        ∙ tree.fresh_zero r k (omega arith) b c;
  }

  -- Every table that was there stays where it was.
  pub Grow-keep : (w j c : ℕ) → table m root w j ≡ some c → table m' root w j ≡ some c
  unfolding table
  Grow-keep w zero c e = e
  Grow-keep w (suc j) c e =
      let came = table_back m root w j c e in
      let ne : slot came.parent w j ≢ slot q v i =
        λ s. absurd (omega (arith, empty, came.valid, ap m s)) in
      let same : m' (slot came.parent w j) ≡ m (slot came.parent w j) = write.same _ ne in
      table_down m' root w j came.parent (Grow-keep w j came.parent came.at)
        (omega (arith, came.valid))
      ∙ ap (λ (t : ℕ). some (frame t)) same
      ∙ ap some (sym came.is)

  pub Grow-self : table m' root v (suc i) ≡ some next
  Grow-self =
      table_down m' root v i q (Grow-keep v i q at) (ap (λ t. t % 2) write.at ∙ valid)
      ∙ ap (λ (t : ℕ). some (frame t)) write.at
      ∙ ap some leads

  -- A table of the grown tree is an old one, or the new one.
  Grow-split :
      (w j c : ℕ)
      → j ≤ 4
      → table m' root w j ≡ some c
      → (table m root w j ≡ some c) ⊎ ((c ≡ next) × (j ≡ suc i))
  unfolding table
  Grow-split w zero c h e = inl e
  Grow-split w (suc j) c h e =
      let came = table_back m' root w j c e in
      split came.parent came.at came.valid came.is
        (Grow-split w j came.parent (omega arith) came.at)
    where
      old :
          (p : ℕ)
          → table m root w j ≡ some p
          → m' (slot p w j) % 2 ≡ 1
          → c ≡ frame (m' (slot p w j))
          → (table m root w (suc j) ≡ some c) ⊎ ((c ≡ next) × (suc j ≡ suc i))
      old p e odd is = elim (Bool-cases (slot p w j == slot q v i)) [
        | inl here ↦
            let s : slot p w j ≡ slot q v i = (==_iff _ _).0 here in
            let same : p ≡ q = omega (arith, idx-lt v i, idx-lt w j) in
            inr (
              is ∙ ap (λ (t : ℕ). frame (m' t)) s ∙ ap frame write.at ∙ leads,
              omega (arith, table-lvl tree w j p (omega arith) e, level, ap lvl same),
            )
        | inr there ↦
            let ne : slot p w j ≢ slot q v i = λ s. cc (there, (==_iff _ _).1 s) in
            let entry : m' (slot p w j) ≡ m (slot p w j) = write.same _ ne in
            inl (
              table_down m root w j p e (omega arith)
              ∙ ap (λ (t : ℕ). some (frame t)) (sym entry)
              ∙ ap some (sym is))
      ]

      split :
          (p : ℕ)
          → table m' root w j ≡ some p
          → m' (slot p w j) % 2 ≡ 1
          → c ≡ frame (m' (slot p w j))
          → (table m root w j ≡ some p) ⊎ ((p ≡ next) × (j ≡ suc i))
          → (table m root w (suc j) ≡ some c) ⊎ ((c ≡ next) × (suc j ≡ suc i))
      split p at odd is (inl e) = old p e odd is
      split p at odd is (inr (e, _)) =
          absurd (omega (arith, clear (idx w j) (idx-lt w j), ap (λ (t : ℕ). m' (slot t w j)) e))

  -- No translation changes.
  pub Grow-same : (w : ℕ) → table m' root w 4 ≡ table m root w 4
  Grow-same w = elim (Option-cases (table m root w 4)) [
    | inr (c, e) ↦ Grow-keep w 4 c e ∙ sym e
    | inl e ↦ elim (Option-cases (table m' root w 4)) [
      | inl e' ↦ e' ∙ sym e
      | inr (c, e') ↦ elim (Grow-split w 4 c (omega arith) e') [
        | inl f ↦ cc
        | inr (_, j) ↦ absurd (omega arith)
      ]
    ]
  ]
