-- ===== src/Model/Bind.antt =====
-- `bind`, `unbind` and `binding_count` of lib/model.cpp.
use ioa.Prelude.{
  ℕ, Bool, false, ◌||◌, not, List, [], ◌∷◌, Option, none, some, ◌==◌, if◌then◌else◌, is_some,
}
use ioa.Outcome.{Outcome, done, ◌>>=◌, or_fault}
use ioa.SequentialSet.{has}
use ioa.FinMap
use ioa.Event.{
  Action, bound_to, unbound_from, BoundResult, bind_key_exists, output_automaton_dne,
  input_automaton_dne, binding_exists, output_action_unavailable, input_action_unavailable,
  bind_key_dne,
}
use ioa.Executor.{
  Output, set_parameter, involves_output, involves_input, involves_input_automaton,
  involves_binding, involves_aid_key, is_empty, size, clone,
}
use ioa.Executor
use ioa.AutomatonRecord.{AutomatonRecord}
use ioa.AutomatonRecord
use ioa.Model.{Model, Status, success, failure, tell, record_of, perform_all}

abbrev is_instance : Action → Option AutomatonRecord → Bool
is_instance x none = false
is_instance x (some r) = r.instance_of.is_a x.class

-- `fetch_instance`: the automaton is there, and is of the class that the executor was made for.
unfoldable pub fetch_instance : Model → Action → Bool
unfolding FinMap.lookup
fetch_instance m x = is_instance x (record_of x.aid m)

-- std::find_if over m_bindings.
unfoldable pub find_if : (Output → Bool) → List Output → Option Output
find_if p [] = none
find_if p (o ∷ os) = if p o then some o else find_if p os

-- A change of the first executor that satisfies `p`, in its place in the list.
unfoldable pub replace_first : (Output → Bool) → Output → List Output → List Output
replace_first p o' [] = []
replace_first p o' (o ∷ os) = if p o then o' ∷ os else o ∷ replace_first p o' os

unfoldable pub remove_first : (Output → Bool) → List Output → List Output
remove_first p [] = []
remove_first p (o ∷ os) = if p o then os else o ∷ remove_first p os

unfoldable pub any_output : (Output → Bool) → List Output → Bool
unfolding find_if
any_output p os = is_some (find_if p os)

-- The functors of lib/model.hpp that the searches are for.
abbrev pub binding_equal : Action → Action → ℕ → Output → Bool
binding_equal output input binder = λ c. involves_binding c output input binder

abbrev pub binding_output_equal : Action → Output → Bool
binding_output_equal output = λ c. involves_output c output

abbrev pub binding_input_equal : Action → Output → Bool
binding_input_equal input = λ c. involves_input c input

abbrev pub binding_aid_key_equal : ℕ → ℕ → Output → Bool
binding_aid_key_equal aid key = λ c. involves_aid_key c aid key

abbrev pub has_input_automaton : ℕ → Option Output → Bool
has_input_automaton aid none = false
has_input_automaton aid (some o) = involves_input_automaton o aid

-- The checks of `bind`, in order: the result to report, or none if the binding may be made.
unfoldable pub refusal : Model → Action → Action → ℕ → Option BoundResult
unfolding fetch_instance any_output find_if involves_binding involves_input involves_output
    involves_input_automaton
refusal m output input binder =
    if not (fetch_instance m output)
    then some output_automaton_dne
    else if not (fetch_instance m input)
    then some input_automaton_dne
    else if any_output (binding_equal output input binder) m.bindings
    then some binding_exists
    else if any_output (binding_input_equal input) m.bindings
    then some input_action_unavailable
    else if output.aid == input.aid
        || has_input_automaton input.aid (find_if (binding_output_equal output) m.bindings)
    then some output_action_unavailable
    else none

abbrev pub fresh_output : Action → Output
fresh_output x = clone (record { action = x; records = [] })

-- The end of `bind`: the executor that is there, or a clone put in front, takes the input.
unfoldable pub attach : Model → Action → Action → ℕ → ℕ → Outcome Model
unfolding find_if replace_first involves_output clone Executor.bind perform_all
attach m output input binder key = elim (find_if (binding_output_equal output) m.bindings) [
  | none ↦
      let (c, effects) = Executor.bind (fresh_output output) input binder key in
      perform_all effects (record m { bindings = c ∷ m.bindings })
  | some o ↦
      let (c, effects) = Executor.bind o input binder key in
      perform_all effects
        (record m { bindings = replace_first (binding_output_equal output) c m.bindings })
]

abbrev pub refuse : Model → ℕ → BoundResult → ℕ → Outcome (Status × Model)
refuse m binder result key = done (failure, tell m (bound_to binder result key))

abbrev pub bind_checked :
    Model → Action → Action → ℕ → ℕ → Option BoundResult → Outcome (Status × Model)
bind_checked m output input binder key (some result) = refuse m binder result key
bind_checked m output input binder key none = do
  m' ← attach m output input binder key
  done (success, m')

unfoldable pub bind :
    Model → (binder : ℕ) → (output input : Action) → (key : ℕ) → Outcome (Status × Model)
unfolding refusal attach set_parameter FinMap.lookup AutomatonRecord.bind_key_exists
bind m binder output input key = if not (has m.aids binder) then done (failure, m) else do
  r ← or_fault (record_of binder m)
  if AutomatonRecord.bind_key_exists r key then refuse m binder bind_key_exists key else do
    let output' = set_parameter output input.aid
    let input' = set_parameter input output.aid
    bind_checked m output' input' binder key (refusal m output' input' binder)

abbrev pub unbind_found : Model → ℕ → ℕ → Option Output → Outcome (Status × Model)
unbind_found m binder key none = done (failure, tell m (unbound_from binder bind_key_dne key))
unbind_found m binder key (some o) = do
  let (c, effects) = Executor.unbind o binder key
  let here = binding_aid_key_equal binder key
  m' ← perform_all effects m
  if is_empty c
      then done (success, record m' { bindings = remove_first here m'.bindings })
      else done (success, record m' { bindings = replace_first here c m'.bindings })

unfoldable pub unbind : Model → (binder key : ℕ) → Outcome (Status × Model)
unfolding find_if replace_first remove_first involves_aid_key is_empty Executor.unbind perform_all
unbind m binder key =
    if not (has m.aids binder)
    then done (failure, m)
    else unbind_found m binder key (find_if (binding_aid_key_equal binder key) m.bindings)

abbrev output_size : Option Output → ℕ
output_size none = 0
output_size (some o) = size o

unfoldable pub binding_count : Model → Action → ℕ
unfolding find_if any_output involves_input involves_output size
binding_count m x =
    if any_output (binding_input_equal x) m.bindings
    then 1
    else output_size (find_if (binding_output_equal x) m.bindings)
