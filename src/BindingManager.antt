-- ===== src/BindingManager.antt =====
-- include/ioa/binding_manager.hpp: binding_manager_core, the helper that asks for a binding once the
-- handles of both its automata are known.
pub mod Asking
use ioa.Prelude.{
  ℕ, Bool, true, false, ◌&&◌, not, List, [], ◌∷◌, ◌++◌, Option, none, some, is_some, if◌then◌else◌,
}
use ioa.Outcome.{Outcome, fault, done, ◌>>=◌}
use ioa.Event.{
  BoundResult, bind_key_exists, output_automaton_dne, input_automaton_dne, binding_exists,
  output_action_unavailable, input_action_unavailable, bound, UnboundResult, bind_key_dne, unbound,
}

-- START, OUTPUT_AUTOMATON_DNE and so on; the last is UNBOUND.
pub data State : Type 0 where
  start no_output no_input exists input_unavailable output_unavailable is_bound is_unbound : State

-- A handle of -1 is `none`. An observer is listening while it is registered with its observable, and
-- the object is alive until `delete this`.
pub record BindingManager : Type 0 where
  pub output_handle : Option ℕ
  pub input_handle : Option ℕ
  pub output_listens : Bool
  pub input_listens : Bool
  pub state : State
  pub alive : Bool

-- m_automaton->bind (this), m_automaton->unbind (this) and notify_observers ().
pub data Call : Type 0 where
  asks_bind asks_unbind notifies : Call

abbrev pub is_ready : BindingManager → Bool
is_ready m = is_some m.output_handle && is_some m.input_handle

abbrev ask_if : Bool → List Call
ask_if b = if b then asks_bind ∷ [] else []

unfoldable pub set_output_handle : Option ℕ → BindingManager → BindingManager × List Call
set_output_handle h m =
    (record m { output_handle = h }, ask_if (is_some h && is_some m.input_handle))

unfoldable pub set_input_handle : Option ℕ → BindingManager → BindingManager × List Call
set_input_handle h m =
    (record m { input_handle = h }, ask_if (is_some m.output_handle && is_some h))

-- The constructor of output_observer: `h` is the handle that the observable has.
unfoldable pub observe_output : Option ℕ → BindingManager → BindingManager × List Call
unfolding set_output_handle
observe_output none m = (record m { output_listens = true }, [])
observe_output (some h) m = set_output_handle (some h) m

unfoldable pub observe_input : Option ℕ → BindingManager → BindingManager × List Call
unfolding set_input_handle
observe_input none m = (record m { input_listens = true }, [])
observe_input (some h) m = set_input_handle (some h) m

abbrev blank : BindingManager
blank = record {
  output_handle = none;
  input_handle = none;
  output_listens = false;
  input_listens = false;
  state = start;
  alive = true;
}

-- The constructor, with the handles that the two observables have.
unfoldable pub init : (output input : Option ℕ) → BindingManager × List Call
unfolding observe_output observe_input
init output input =
    let (m, calls) = observe_output output blank in
    let (m', more) = observe_input input m in (m', calls ++ more)

unfoldable pub unbind : BindingManager → BindingManager × List Call
unbind m = if is_ready m then (m, asks_unbind ∷ []) else (record m { alive = false }, [])

-- A state that is final.
abbrev ends_in : State → BindingManager → Outcome (BindingManager × List Call)
ends_in s m = done (record m { state = s; alive = false }, notifies ∷ [])

-- The case label BOUND has the value of BOUND_RESULT.
unfoldable pub on_bound : BoundResult → BindingManager → Outcome (BindingManager × List Call)
on_bound bind_key_exists m = fault
on_bound output_automaton_dne m = ends_in no_output m
on_bound input_automaton_dne m = ends_in no_input m
on_bound binding_exists m = ends_in exists m
on_bound input_action_unavailable m = ends_in input_unavailable m
on_bound output_action_unavailable m = ends_in output_unavailable m
on_bound bound m = done (record m { state = is_bound }, notifies ∷ [])

unfoldable pub on_unbound : UnboundResult → BindingManager → Outcome (BindingManager × List Call)
on_unbound bind_key_dne m = fault
on_unbound unbound m = ends_in is_unbound m

-- What may happen to a manager: an observable tells its observer, with the handle it then has, or
-- goes away; the user unbinds; the automaton answers.
pub data Happening : Type 0 where
  output_told input_told : (handle : Option ℕ) → Happening
  output_gone input_gone : Happening
  unbinds : Happening
  answers_bound : BoundResult → Happening
  answers_unbound : UnboundResult → Happening

-- An observable tells and leaves only the observers that are registered, and an observer that is told
-- goes off its list. `stop_observing ()` of input_observer has another signature than the method of
-- its base class, so that it is never called.
unfoldable pub happen : Happening → BindingManager → Outcome (BindingManager × List Call)
unfolding set_output_handle set_input_handle unbind on_bound on_unbound
happen (output_told h) m =
    if m.output_listens
    then done (set_output_handle h (record m { output_listens = false }))
    else done (m, [])
happen (input_told h) m =
    if m.input_listens
    then done (set_input_handle h (record m { input_listens = false }))
    else done (m, [])
happen output_gone m =
    if m.output_listens then done (unbind (record m { output_listens = false })) else done (m, [])
happen input_gone m = done (record m { input_listens = false }, [])
happen unbinds m = done (unbind m)
happen (answers_bound result) m = on_bound result m
happen (answers_unbound result) m = on_unbound result m

-- Nothing may happen to a manager that is deleted.
unfoldable pub run : List Happening → BindingManager → Outcome (BindingManager × List Call)
unfolding happen
run [] m = done (m, [])
run (h ∷ hs) m =
    if not m.alive
    then fault
    else do (m1, calls) ← happen h m; (m2, more) ← run hs m1; done (m2, calls ++ more)
