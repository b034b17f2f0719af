-- ===== src/SequentialSet.antt =====
-- lib/sequential_set.hpp: ids handed out in ascending order, none that is still in use.
pub mod Take
use ioa.Prelude.{
  ℕ, zero, suc, ◌+◌, ◌^◌, Bool, true, false, List, [], Option, none, some, ◌==◌, if◌then◌else◌,
  length,
}
use ioa.FinSet.{contains, insert, erase}

-- A T (aid_t, int64_t) is its value, and `m_counter` is never negative between two calls.
pub record SequentialSet : Type 0 where
  pub counter : ℕ
  pub used : List ℕ

-- 2 ^ 63: the increment of the greatest int64_t goes to the least one, which the code's test takes
-- to 0. No other increment of a counter that is not negative gives a negative number.
unfoldable pub limit : ℕ
limit = 2 ^ 63

unfoldable pub init : SequentialSet
init = record { counter = 0; used = [] }

-- ++m_counter; if (m_counter < 0) { m_counter = 0; }
unfoldable pub next : ℕ → ℕ
unfolding limit
next c = if c + 1 == limit then 0 else c + 1

-- The do-while loop of `take`, from the counter `c`. `none` means that the fuel ran out.
unfoldable pub take_from : ℕ → ℕ → List ℕ → Option ℕ
unfolding next contains
take_from zero c used = none
take_from (suc fuel) c used = elim (contains (next c) used) [
  | true ↦ take_from fuel (next c) used
  | false ↦ some (next c)
]

abbrev taken : Option ℕ → List ℕ → Option (ℕ × SequentialSet)
taken none used = none
taken (some c) used = some (c, record { counter = c; used = insert c used })

-- One round more than there are ids in use.
unfoldable pub take : SequentialSet → Option (ℕ × SequentialSet)
unfolding take_from insert
take s = taken (take_from (suc (length s.used)) s.counter s.used) s.used

unfoldable pub replace : SequentialSet → ℕ → SequentialSet
unfolding erase
replace s t = record s { used = erase t s.used }

abbrev pub has : SequentialSet → ℕ → Bool
has s t = contains t s.used

unfoldable pub clear : SequentialSet → SequentialSet
clear s = record s { used = [] }

unfoldable pub is_empty : SequentialSet → Bool
is_empty s = length s.used == 0
