-- ===== src/El1/Loader/Pages.antt =====
-- The loader's loops by pages: over the image, and over one section.
use qemu_tztest.Common.{
  ℕ, zero, suc, ◌+◌, ◌-◌, ◌*◌, ◌^◌, ◌≤◌, ◌<◌, ◌≡◌, arith, ap, ◌∙◌, sym, true, inl, inr, Option,
  some, ltb, Bool-cases, u64, ◌>>=◌, ◌==◌,
}
use qemu_tztest.Mem64.{MemState, mem_map_pa, mem_map_va, pte_user_rw}
use qemu_tztest.Mem64.Leaf.{page}
use qemu_tztest.Mem64.State.{IsMapped}
use qemu_tztest.Mem64.Map.{mem_map_pa-Mapping}
use qemu_tztest.Mem64.Heap.{mem_map_va-Fresh}
use qemu_tztest.El1.Loader.{Libc, Loading, map_image, load_pages}
use qemu_tztest.El1.Loader.Copied.{pages_of, copied_pages}
use qemu_tztest.El1.Loader.Kept.{
  Kept, Kept-refl, Kept-trans, Kept-weaken, mapped-Kept, Backed, Outside,
}

pub record Maps (root limit k : ℕ) (s : MemState) (inv : IsMapped root limit s)
    (result : Option MemState) : Type 0 where
  pub after : MemState
  pub returns : result ≡ some after
  pub kept : Kept root limit k s inv after

-- One round of each loop, with its offsets as multiples of a page.
map_image-round :
    (b len depth fuel j : ℕ) (s : MemState)
    → ltb (j * 0x1000) len ≡ true
    → (b + j + 1) * 0x1000 < 2 ^ 64
    → map_image (suc fuel) depth (b * 0x1000) len (j * 0x1000) s ≡ (
        mem_map_pa depth ((b + j) * 0x1000) ((b + j) * 0x1000) 0 pte_user_rw s >>= λ m.
        map_image fuel depth (b * 0x1000) len ((j + 1) * 0x1000) m)
unfolding map_image
map_image-round b len depth fuel j s more fits =
    let step : u64 (j * 0x1000 + 0x1000) ≡ (j + 1) * 0x1000 = omega arith in
    let at : u64 (b * 0x1000 + j * 0x1000) ≡ (b + j) * 0x1000 = omega arith in rw (more, at, step)

pub map_image-Maps :
    {root limit : ℕ} (b n len depth fuel j : ℕ) {s : MemState} (inv : IsMapped root limit s)
    → n ≡ pages_of len
    → b + n ≤ 2 ^ 24
    → j ≤ n + 1
    → n + 1 < fuel + j
    → inv.next + 3 * (n - j) ≤ limit
    → Maps root limit
        (3 * (n - j))
        s
        inv
        (map_image fuel (suc (suc depth)) (b * 0x1000) len (j * 0x1000) s)
unfolding map_image
map_image-Maps b n len depth zero j inv count fits h room pool = absurd (omega arith)
map_image-Maps {root} {limit} b n len depth (suc fuel) j {s} inv count fits h room pool =
    elim (Bool-cases (ltb (j * 0x1000) len)) [
      | inl more ↦
          let below : j < n = ground arith in
          let m =
            mem_map_pa-Mapping ((b + j) * 0x1000) ((b + j) * 0x1000) 0 pte_user_rw depth inv
              (omega arith) (omega arith) (omega arith) (omega arith) in
          let a =
            mapped-Kept 3 _ ((b + j) * 0x1000) inv m.inv' m.grows m.little (omega (arith, m.little))
              m.hit m.same in
          let r =
            map_image-Maps b n len depth fuel (j + 1) a.inv' count fits (omega arith) (omega arith)
              (omega (arith, a.little)) in
          record {
            after = r.after;
            returns =
                map_image-round b len (suc (suc depth)) fuel j s more (omega arith)
                ∙ rw m.returns r.returns;
            kept = Kept-trans a r.kept (omega arith);
          }
      | inr done ↦ record {
        after = s;
        returns = rw done;
        kept = Kept-weaken (Kept-refl inv) (omega arith);
      }
    ]

-- Pages `j` to `n` of a section at `base` have been mapped and filled from `sect`.
pub record Paged (libc : Libc) (root limit base sect j n : ℕ) (l : Loading)
    (inv : IsMapped root limit l.mm) (result : Option Loading) : Type 0 where
  pub after : Loading
  pub returns : result ≡ some after
  pub kept : Kept root limit (4 * (n - j)) l.mm inv after.mm
  pub bytes : after.bytes ≡ copied_pages libc u64 (n - j) j base sect l.bytes
  pub backed :
      (k : ℕ)
      → j ≤ k
      → k < n
      → Outside inv.next limit (u64 (base + k * 0x1000))
      → Backed root (u64 (base + k * 0x1000)) after.mm

module _ (libc : Libc) where
  load_pages-round :
      (base sect size depth fuel j : ℕ) (l : Loading)
      → ltb (j * 0x1000) size ≡ true
      → (j + 1) * 0x1000 < 2 ^ 64
      → load_pages libc (suc fuel) depth base sect size (j * 0x1000) l ≡ (
          mem_map_va depth (u64 (base + j * 0x1000)) 0 pte_user_rw l.mm >>= λ m.
          load_pages libc fuel depth base sect size ((j + 1) * 0x1000) (record {
            mm = m;
            bytes = libc.memcpy (u64 (base + j * 0x1000)) (u64 (sect + j * 0x1000)) 0x1000 l.bytes;
          }))
  unfolding load_pages
  load_pages-round base sect size depth fuel j l more fits =
      let step : u64 (j * 0x1000 + 0x1000) ≡ (j + 1) * 0x1000 = omega arith in rw (more, step)

  pub load_pages-Paged :
      {root limit : ℕ} (base sect n size depth fuel j : ℕ) (l : Loading)
      (inv : IsMapped root limit l.mm)
      → n ≡ pages_of size
      → j ≤ n
      → n ≤ 2 ^ 24
      → n < fuel + j
      → inv.next + 4 * (n - j) ≤ limit
      → Paged libc root limit base sect j n l inv
          (load_pages libc fuel (suc (suc depth)) base sect size (j * 0x1000) l)
  unfolding load_pages copied_pages
  load_pages-Paged base sect n size depth zero j l inv count h few room pool = absurd (omega arith)
  load_pages-Paged {root} {limit} base sect n size depth (suc fuel) j l inv count h few room pool =
      elim (Bool-cases (ltb (j * 0x1000) size)) [
        | inl more ↦
            let below : j < n = ground arith in
            let v = u64 (base + j * 0x1000) in
            let m = mem_map_va-Fresh v depth inv (omega arith) in
            let a =
              mapped-Kept 4 inv.next v inv m.inv' (omega (arith, m.grows)) m.little
                (omega (arith, m.little)) m.hit m.same in
            let l' : Loading = record {
              mm = m.after;
              bytes = libc.memcpy v (u64 (sect + j * 0x1000)) 0x1000 l.bytes;
            } in
            let r =
              load_pages-Paged base sect n size depth fuel (j + 1) l' a.inv' count (omega arith) few
                (omega arith) (omega (arith, a.little)) in
            let left : n - j ≡ suc (n - (j + 1)) = omega arith in
            record {
              after = r.after;
              returns =
                  load_pages-round base sect size (suc (suc depth)) fuel j l more (omega arith)
                  ∙ rw m.returns r.returns;
              kept = Kept-trans a r.kept (omega arith);
              bytes = r.bytes ∙ sym (ap (λ c. copied_pages libc u64 c j base sect l.bytes) left);
              backed = λ k low high out. elim (Bool-cases (k == j)) [
                | inl e ↦
                    let at : k ≡ j = ground (arith, e) in
                    rw at (
                      r.kept.stays v
                        (omega (arith, ap (λ x. page (u64 (base + x * 0x1000))) at, out, a.grows))
                        (inv.next, m.hit))
                | inr ne ↦ r.backed k (ground (arith, ne)) high (omega (arith, out, a.grows))
              ];
            }
        | inr done ↦
            let all : n - j ≡ 0 = ground arith in
            record {
              after = l;
              returns = rw done;
              kept = Kept-weaken (Kept-refl inv) (omega arith);
              bytes = sym (ap (λ c. copied_pages libc u64 c j base sect l.bytes) all);
              backed = λ k low high out. absurd (omega (arith, low, high, all, h));
            }
      ]
