-- ===== src/El1/LoaderArm/Image.antt =====
-- The loops of the ARMv7 loader over the pages of the image: what they map, and what they unmap.
use qemu_tztest.Common.{
  ℕ, zero, suc, ◌+◌, ◌-◌, ◌*◌, ◌/◌, ◌^◌, ◌≤◌, ◌<◌, ◌≡◌, refl, arith, ◌∙◌, true, ◌==◌, inl, inr,
  Option, some, ltb, Bool-cases, u32, ◌>>=◌,
}
use qemu_tztest.Mem32.{MemState, mem_map_pa, mem_unmap_va, mem_lookup_pa, pte_user_rw}
use qemu_tztest.Mem32.Lookup.{Present}
use qemu_tztest.Mem32.Pool.{IsPool}
use qemu_tztest.Mem32.Mapping.{mem_map_pa-Pooled}
use qemu_tztest.Mem32.Fresh.{Kept, Kept-refl, Kept-trans, mem_unmap_va-Freed}
use qemu_tztest.El1.Loader.Copied.{pages_of}
use qemu_tztest.El1.LoaderArm.{map_image, unmap_image}

-- The pages `j` to `n` of the image at page `b` have been mapped.
pub record Imaged (root limit b j n : ℕ) (s : MemState) (inv : IsPool root limit s)
    (result : Option MemState) : Type 0 where
  pub after : MemState
  pub returns : result ≡ some after
  pub kept : Kept root limit (n - j) s inv after
  pub there : (k : ℕ) → j ≤ k → k < n → Present root ((b + k) * 0x1000) after

map_image-round :
    (b len depth fuel j : ℕ) (s : MemState)
    → ltb (j * 0x1000) len ≡ true
    → (b + j + 1) * 0x1000 < 2 ^ 32
    → map_image (suc fuel) depth (b * 0x1000) len (j * 0x1000) s ≡ (
        mem_map_pa depth ((b + j) * 0x1000) ((b + j) * 0x1000) 0 pte_user_rw s >>= λ m.
        map_image fuel depth (b * 0x1000) len ((j + 1) * 0x1000) m)
unfolding map_image
map_image-round b len depth fuel j s more fits =
    let step : u32 (j * 0x1000 + 0x1000) ≡ (j + 1) * 0x1000 = omega arith in
    let at : u32 (b * 0x1000 + j * 0x1000) ≡ (b + j) * 0x1000 = omega arith in rw (more, at, step)

pub map_image-Imaged :
    {root limit : ℕ} (b n len depth fuel j : ℕ) {s : MemState} (inv : IsPool root limit s)
    → n ≡ pages_of len
    → b + n < 2 ^ 20
    → j ≤ n
    → n < fuel + j
    → inv.next + (n - j) ≤ limit
    → Imaged root limit b j n s inv
        (map_image fuel (suc (suc depth)) (b * 0x1000) len (j * 0x1000) s)
unfolding map_image
map_image-Imaged b n len depth zero j inv count fits h room pool = absurd (omega arith)
map_image-Imaged {root} {limit} b n len depth (suc fuel) j {s} inv count fits h room pool =
    elim (Bool-cases (ltb (j * 0x1000) len)) [
      | inl more ↦
          let below : j < n = ground arith in
          let m =
            mem_map_pa-Pooled depth ((b + j) * 0x1000) ((b + j) * 0x1000) pte_user_rw inv
              (omega arith) (omega arith) (omega arith) (omega arith) in
          let first : Kept root limit 1 s inv m.after = record {
            inv' = m.inv';
            taken = (m.taken.0, omega (arith, m.taken));
            stays = m.stays;
          } in
          let r =
            map_image-Imaged b n len depth fuel (j + 1) m.inv' count fits (omega arith)
              (omega arith) (omega (arith, m.taken)) in
          record {
            after = r.after;
            returns =
                map_image-round b len (suc (suc depth)) fuel j s more (omega arith)
                ∙ rw m.returns r.returns;
            kept = Kept-trans first r.kept (omega arith);
            there = λ k p q. elim (Bool-cases (k == j)) [
              | inl e ↦
                  let at : k ≡ j = ground arith in rw at (r.kept.stays ((b + j) * 0x1000) m.present)
              | inr ne ↦ r.there k (ground arith) q
            ];
          }
      | inr done ↦ record {
        after = s;
        returns = rw done;
        kept = Kept-refl (n - j) inv;
        there = λ k p q. absurd (ground arith);
      }
    ]

-- The pages `j` to `n` of the image have lost their translation.
pub record Unimaged (root limit b j n : ℕ) (s : MemState) (inv : IsPool root limit s)
    (result : Option MemState) : Type 0 where
  pub after : MemState
  pub returns : result ≡ some after
  pub kept : Kept root limit 0 s inv after
  pub gone : (k : ℕ) → j ≤ k → k < n → mem_lookup_pa ((b + k) * 0x1000) after ≡ 0
  pub others : (w : ℕ) → w < 2 ^ 32 → w / 4096 < b + j → mem_lookup_pa w after ≡ mem_lookup_pa w s

unmap_image-round :
    (b len fuel j : ℕ) (s : MemState)
    → ltb (j * 0x1000) len ≡ true
    → (b + j + 1) * 0x1000 < 2 ^ 32
    → unmap_image (suc fuel) (b * 0x1000) len (j * 0x1000) s
      ≡ unmap_image fuel (b * 0x1000) len ((j + 1) * 0x1000) (mem_unmap_va ((b + j) * 0x1000) s).1
unfolding unmap_image
unmap_image-round b len fuel j s more fits =
    let step : u32 (j * 0x1000 + 0x1000) ≡ (j + 1) * 0x1000 = omega arith in
    let at : u32 (b * 0x1000 + j * 0x1000) ≡ (b + j) * 0x1000 = omega arith in rw (more, at, step)

pub unmap_image-Unimaged :
    {root limit : ℕ} (b n len fuel j : ℕ) {s : MemState} (inv : IsPool root limit s)
    → n ≡ pages_of len
    → b + n < 2 ^ 20
    → j ≤ n
    → n < fuel + j
    → ((k : ℕ) → j ≤ k → k < n → Present root ((b + k) * 0x1000) s)
    → Unimaged root limit b j n s inv (unmap_image fuel (b * 0x1000) len (j * 0x1000) s)
unfolding unmap_image
unmap_image-Unimaged b n len zero j inv count fits h room there = absurd (omega arith)
unmap_image-Unimaged {root} {limit} b n len (suc fuel) j {s} inv count fits h room there =
    elim (Bool-cases (ltb (j * 0x1000) len)) [
      | inl more ↦
          let below : j < n = ground arith in
          let here = (b + j) * 0x1000 in
          let u = mem_unmap_va-Freed here inv (omega arith) (there j (omega arith) below) in
          let r =
            unmap_image-Unimaged b n len fuel (j + 1) u.kept.inv' count fits (omega arith)
              (omega arith) (λ k p q. u.kept.stays ((b + k) * 0x1000) (there k (omega arith) q)) in
          record {
            after = r.after;
            returns = unmap_image-round b len fuel j s more (omega arith) ∙ r.returns;
            kept = Kept-trans u.kept r.kept (omega arith);
            gone = λ k p q. elim (Bool-cases (k == j)) [
              | inl e ↦
                  let at : k ≡ j = ground arith in
                  rw at (
                    r.others here (omega arith) (omega arith)
                    ∙ u.gone here (omega arith) refl
                    ∙ omega arith)
              | inr ne ↦ r.gone k (ground arith) q
            ];
            others = λ w fit p. r.others w fit (omega arith) ∙ u.others w fit (omega arith);
          }
      | inr done ↦ record {
        after = s;
        returns = rw done;
        kept = Kept-refl 0 inv;
        gone = λ k p q. absurd (ground arith);
        others = λ w fit p. refl;
      }
    ]
