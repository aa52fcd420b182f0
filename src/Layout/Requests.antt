-- ===== src/Layout/Requests.antt =====
-- What a level asks of its mem_util.c while it runs, over either architecture.
use qemu_tztest.Common.{ℕ, ◌+◌, ◌≤◌, ◌≡◌, refl, arith, Option, some, List, [], ◌∷◌, ◌++◌, ◌>>=◌}

pub data Request : Type 0 where
  map_pa : (vaddr paddr tblattr pgattr : ℕ) → Request
  unmap_va : (addr : ℕ) → Request
  heap_allocate : (len : ℕ) → Request

-- The start and the length of each block that the heap has given out.
abbrev pub Blocks : Type 0
Blocks = List (ℕ × ℕ)

-- The memory utilities of one architecture: the heap pointer, and a request with the block that answers it, if any.
pub record Memory (S : Type 0) : Type 0 where
  pub heap_pool : S → ℕ
  pub ask : Request → S → Option (Blocks × S)

unfoldable pub serve : {S : Type 0} → Memory S → List Request → S → Option (Blocks × S)
serve m [] s = some ([], s)
serve m (r ∷ rs) s = do (bs, s') ← m.ask r s; (cs, t) ← serve m rs s'; some (bs ++ cs, t)

-- Blocks that follow each other from `low` to `high` and do not overlap.
unfoldable pub Between : (low : ℕ) → Blocks → (high : ℕ) → Type 0
Between low [] high = low ≤ high
Between low ((a, len) ∷ bs) high = (low ≤ a) × Between (a + len) bs high

-- What is asked of the states: that a level runs in its own areas, of which it has spent so many frames of `limit`,
-- with a heap between `low` and `high`; and of the requests, each of which costs some frames at most.
pub record Contract (S : Type 0) : Type 1 where
  pub Laid : S → Type 0
  pub spent : (s : S) → Laid s → ℕ
  pub limit : ℕ
  pub IsRequest : Request → Type 0
  pub cost : Request → ℕ
  pub low : ℕ
  pub high : ℕ

-- The blocks given out from state `s` to the state after, which is in its areas again.
pub record Served {S : Type 0} (m : Memory S) (c : Contract S) (s : S)
    (result : Option (Blocks × S)) : Type 0 where
  pub blocks : Blocks
  pub after : S
  pub returns : result ≡ some (blocks, after)
  pub laid' : c.Laid after
  pub apart : Between (m.heap_pool s) blocks (m.heap_pool after)
  pub inside : (c.low ≤ m.heap_pool s) × (m.heap_pool after ≤ c.high)

pub record Answered {S : Type 0} (m : Memory S) (c : Contract S) (r : Request) (s : S)
    (laid : c.Laid s) (result : Option (Blocks × S)) : Type 0 where
  pub served : Served m c s result
  pub costs : c.spent served.after served.laid' ≤ c.spent s laid + c.cost r

pub record Fulfils {S : Type 0} (m : Memory S) (c : Contract S) : Type 0 where
  pub inside : (s : S) → c.Laid s → (c.low ≤ m.heap_pool s) × (m.heap_pool s ≤ c.high)
  pub answers :
      (r : Request) (s : S) (laid : c.Laid s)
      → c.IsRequest r
      → c.spent s laid + c.cost r ≤ c.limit
      → Answered m c r s laid (m.ask r s)

Between-append :
    (low : ℕ) (bs : Blocks) (mid : ℕ) (cs : Blocks) (high : ℕ)
    → Between low bs mid
    → Between mid cs high
    → Between low (bs ++ cs) high
unfolding Between
Between-append low [] mid [] high b c = omega arith
Between-append low [] mid ((a, len) ∷ cs) high b c = (omega (arith, c.0), c.1)
Between-append low ((a, len) ∷ bs) mid cs high b c =
    (b.0, Between-append (a + len) bs mid cs high b.1 c)

abbrev pub AreRequests : {S : Type 0} → Contract S → List Request → Type 0
AreRequests c [] = Unit
AreRequests c (r ∷ rs) = c.IsRequest r × AreRequests c rs

-- The frames that the requests may take.
abbrev pub most : {S : Type 0} → Contract S → List Request → ℕ
most c [] = 0
most c (r ∷ rs) = c.cost r + most c rs

pub serve-contract :
    {S : Type 0} {m : Memory S} {c : Contract S} (f : Fulfils m c) (rs : List Request) (s : S)
    (laid : c.Laid s)
    → AreRequests c rs
    → c.spent s laid + most c rs ≤ c.limit
    → Served m c s (serve m rs s)
unfolding serve Between
serve-contract {m = m} f [] s laid ok room = record {
  blocks = [];
  after = s;
  returns = refl;
  laid' = laid;
  apart = omega arith;
  inside = f.inside s laid;
}
serve-contract {m = m} f (r ∷ rs) s laid ok room =
    let a = f.answers r s laid ok.0 (omega arith) in
    let b = serve-contract f rs a.served.after a.served.laid' ok.1 (omega (arith, a.costs)) in
    record {
      blocks = a.served.blocks ++ b.blocks;
      after = b.after;
      returns = rw (a.served.returns, b.returns) refl;
      laid' = b.laid';
      apart = Between-append _ a.served.blocks _ b.blocks _ a.served.apart b.apart;
      inside = (a.served.inside.0, b.inside.1);
    }
