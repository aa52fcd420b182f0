-- ===== src/El3/Map.antt =====
-- SMC_OP_MAP: the mapping made at EL3 and what is passed on to secure EL1.
use qemu_tztest.Common.{
  ℕ, suc, ◌+◌, ◌*◌, ◌/◌, ◌^◌, ◌≤◌, ◌<◌, ◌≡◌, refl, arith, Bool, true, false, some, bit_and, ◌==◌,
  if◌then◌else◌, Bool-cases, inl, inr,
}
use qemu_tztest.Mem64.{MemState, pte_priv_rw}
use qemu_tztest.Mem64.State.{IsMapped}
use qemu_tztest.Mem64.Lookup.{Maps, mem_lookup_pa-mem_map_pa}
use qemu_tztest.Interop.{Desc, svc_op_map, op_map_el3, op_map_sec_el1}
use qemu_tztest.Interop.MapMem
use qemu_tztest.El3.{El3State, Outcome, map_on, el3_map_mem}

-- The request has the bits of `who` set.
abbrev pub asks : ℕ → Desc → Bool
asks who map = bit_and (MapMem.type map) who == who

-- The answer to a mapping request: the operation for secure EL1 with the EL3 bit taken off, or 0.
abbrev pub passed_on : Desc → ℕ × Desc
passed_on map =
    if asks op_map_sec_el1 map
    then (svc_op_map, MapMem.set_type (bit_and (MapMem.type map) 0xFFFFFFF7) map)
    else (0, map)

pub record Mapped (root limit : ℕ) (map : Desc) (s : El3State) (inv : IsMapped root limit s.mm)
    (result : Outcome) : Type 0 where
  pub mm' : MemState
  pub returns : result ≡ some ((passed_on map).0, (passed_on map).1, record s { mm = mm' })
  pub maps : Maps root limit (MapMem.va map) (MapMem.pa map / 0x1000 * 0x1000) s.mm inv (some mm')

map_on-passed_on :
    (map : Desc) (s : El3State) → map_on map s ≡ ((passed_on map).0, (passed_on map).1, s)
unfolding map_on
map_on-passed_on map s = elim (Bool-cases (asks op_map_sec_el1 map)) [ inl e ↦ rw e | inr e ↦ rw e ]

-- With well-formed tables and three pages left in the pool, a mapping request for EL3 whose physical address has 36
-- bits is carried out there: afterwards EL3 translates the address to the page
-- asked for and no other translation outside the pool has changed. It is handed to secure EL1, with
-- the EL3 bit cleared, exactly if it asks for that too.
pub el3_map_mem-Mapped :
    {root limit : ℕ} (fuel : ℕ) (map : Desc) (s : El3State) (inv : IsMapped root limit s.mm)
    → asks op_map_el3 map ≡ true
    → MapMem.pa map < 2 ^ 36
    → inv.next + 3 ≤ limit
    → Mapped root limit map s inv (el3_map_mem (suc (suc fuel)) map s)
unfolding el3_map_mem
el3_map_mem-Mapped fuel map s inv wanted small room =
    let m =
      mem_lookup_pa-mem_map_pa (MapMem.va map) (MapMem.pa map) 0 pte_priv_rw fuel inv (omega arith)
        (omega arith) small room in
    record {
      mm' = m.after;
      returns = rw (wanted, m.returns, map_on-passed_on map (record s { mm = m.after }));
      maps = record {
        after = m.after;
        returns = refl;
        inv' = m.inv';
        taken = m.taken;
        hit = m.hit;
        others = m.others;
      };
    }

-- A request that does not ask for EL3 leaves the state as it is.
pub el3_map_mem-other :
    (fuel : ℕ) (map : Desc) (s : El3State)
    → asks op_map_el3 map ≡ false
    → el3_map_mem fuel map s ≡ some ((passed_on map).0, (passed_on map).1, s)
unfolding el3_map_mem
el3_map_mem-other fuel map s other = rw (other, map_on-passed_on map s)
