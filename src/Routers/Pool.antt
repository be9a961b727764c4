-- ===== src/Routers/Pool.antt =====
-- What the scheduler promises: for each replica a pool of slots, taken one at a time up to the
-- ceiling and given back one at a time. It knows of no rows, orders or times.
use control_deck.Prelude.{ℕ, ◌+◌, ◌<◌, String, ◌==◌, ◌≡◌, if◌then◌else◌}

-- How many slots of each replica are taken.
abbrev pub Pool : Type 0
Pool = String → ℕ

abbrev pub one_if : String → String → ℕ
one_if k j = if k == j then 1 else 0

pub data PoolStep (ceiling : Pool) (p q : Pool) : Type 0 where
  take :
      (k : String)
      → p k < ceiling k
      → ((j : String) → q j ≡ one_if k j + p j)
      → PoolStep ceiling p q
  give : (k : String) → ((j : String) → p j ≡ one_if k j + q j) → PoolStep ceiling p q
  idle : ((j : String) → q j ≡ p j) → PoolStep ceiling p q

pub data PoolRun (ceiling p : Pool) : Pool → Type 0 where
  none_yet : PoolRun ceiling p p
  and_then : {q r : Pool} → PoolRun ceiling p q → PoolStep ceiling q r → PoolRun ceiling p r
