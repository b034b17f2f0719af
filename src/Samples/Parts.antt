-- ===== src/Samples/Parts.antt =====
-- The theorems on the other parts, at small values.
use ioa.Prelude.{
  if◌then◌else◌, ℕ, ◌≡◌, ◌||◌, ◌&&◌, ◌==◌, refl, true, false, List, [], ◌∷◌, some, arith,
}
use ioa.FinSet.{contains}
use ioa.SequentialSet.{SequentialSet, limit, take}
use ioa.SequentialSet.Take.{IsTaken, take_total}
use ioa.Executor.{Binding, Output}
use ioa.Executor.Run.{lock_in_order, unlock_in_order}
use ioa.Executor.Locks.{
  aids, locked, unlocked, any_above, Ascends, from, up, done as at_end, lock_in_order-Ascends,
  lock_in_order-contains,
}
use ioa.Observer.{Observable, Change, joins, leaves, notify_observers, remove_observer}
use ioa.Observer.Delay.{
  will_observe, after_changes, asked, notify_observers-contains, notify_observers-stale,
}
use ioa.Samples.{action_of}

-- The counter at the end of its range, and the ids 0 and 1 in use.
abbrev at_limit : SequentialSet
at_limit = record { counter = 9223372036854775807; used = 0 ∷ 1 ∷ [] }

take_total_example :
    (a : ℕ) × (t : SequentialSet) × (take at_limit ≡ some (a, t)) × IsTaken at_limit a t
unfolding limit
take_total_example = take_total at_limit (omega arith) (omega arith)

abbrev binding_to : ℕ → ℕ × Binding
binding_to aid = (aid, record { input = action_of aid 50; binder = 1; key = aid })

abbrev output : Output
output = record { action = action_of 3 40; records = binding_to 2 ∷ binding_to 5 ∷ [] }

lock_in_order-Ascends_example :
    Ascends (locked (lock_in_order output))
    × (unlocked (unlock_in_order output) ≡ locked (lock_in_order output))
unfolding contains
lock_in_order-Ascends_example = lock_in_order-Ascends output refl (from (up (omega arith) at_end))

lock_in_order-contains_example :
    contains 3 (locked (lock_in_order output))
    ≡ (contains 3 (aids output.records) || (3 == 3 && any_above 3 output.records))
lock_in_order-contains_example = lock_in_order-contains output 3

-- Observer 1 was added under an earlier notification.
abbrev told_once : Observable
told_once = record { observers = 1 ∷ 2 ∷ []; adds = 1 ∷ []; removes = []; notify = false }

-- Told of a change, observer 2 leaves and 3 joins.
abbrev react : ℕ → List Change
react o = if o == 2 then leaves 2 ∷ joins 3 ∷ [] else []

notify_observers-contains_example :
    contains 2 (notify_observers react told_once).observers
    ≡ after_changes 2 (asked react told_once.observers) (will_observe 2 told_once)
notify_observers-contains_example = notify_observers-contains 2 react told_once

notify_observers-stale_example :
    contains 1 (notify_observers (λ o. []) (remove_observer 1 told_once)).observers ≡ true
unfolding contains
notify_observers-stale_example = notify_observers-stale 1 told_once refl refl refl
