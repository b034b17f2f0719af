-- ===== src/Samples/Managers.antt =====
-- The theorems on the two kinds of helper, and on the order of offsets, at small values.
use ioa.Prelude.{◌≡◌, ◌||◌, ◌==◌, refl, true, false, List, [], ◌∷◌, ◌++◌, none, some}
use ioa.Outcome.{Outcome, fault, done}
use ioa.Event.{bound, automaton_created, automaton_destroyed, unbound}
use ioa.Executor.Bindings.{one}
use ioa.AutomatonManager as AutomatonManagers
use ioa.AutomatonManager.{
  AutomatonManager, happen, created, destroyed, here, next, answers_created, answers_destroyed,
}
use ioa.AutomatonManager.Handles.{IsKept, init-IsKept}
use ioa.BindingManager.{
  BindingManager, Call, Happening, output_told, answers_bound, answers_unbound, unbinds, run,
  is_ready,
}
use ioa.BindingManager
use ioa.BindingManager.Asking.{count_bind, count_unbind, init-asks_once}

abbrev ended : AutomatonManager
ended = record { handle = none; state = AutomatonManagers.is_destroyed; alive = false }

-- An automaton is created and destroyed.
init-IsKept_example : IsKept ended
unfolding AutomatonManagers.init happen created destroyed
init-IsKept_example = init-IsKept (
    next (answers_destroyed automaton_destroyed) _
      (next (answers_created automaton_created 4) _ here refl refl) refl refl)

-- The input is known at once, the output later; the binding is made, and ended on request.
abbrev happenings : List Happening
happenings = output_told (some 4) ∷ answers_bound bound ∷ unbinds ∷ answers_unbound unbound ∷ []

abbrev result : Outcome (BindingManager × List Call) → BindingManager × List Call
result fault = BindingManager.init none none
result (done x) = x

abbrev after : BindingManager × List Call
after = result (run happenings (BindingManager.init none (some 2)).0)

init-asks_once_example :
    (count_bind ((BindingManager.init none (some 2)).1 ++ after.1) ≡ one (is_ready after.0))
    × ((is_ready after.0 || count_unbind ((BindingManager.init none (some 2)).1 ++ after.1) == 0)
        ≡ true)
unfolding BindingManager.init run
init-asks_once_example = init-asks_once none (some 2) happenings after.0 after.1 refl
