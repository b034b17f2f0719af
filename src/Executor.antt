-- ===== src/Executor.antt =====
-- include/ioa/action_executor.hpp and include/ioa/executor_interface.hpp: an action's executor, and
-- an output's executor with the records of the inputs bound to it (output_core).
pub mod Run
pub mod Bindings
pub mod Locks
use ioa.Prelude.{
  ℕ, ◌+◌, ◌≡◌, Bool, true, false, ◌&&◌, ◌||◌, List, [], ◌∷◌, ◌++◌, Option, none, some, ltb, ◌==◌,
  if◌then◌else◌, is_some, length,
}
use ioa.FinMap.{lookup, insert}
use ioa.Event.{
  Parameter, unparameterized, parameterized, auto_parameterized, Action, Event, bound_to,
  unbound_from, output_bound, input_bound, output_unbound, input_unbound, bound, unbound,
}

-- An unparameterized action answers 0.
unfoldable pub get_pid : Parameter → ℕ
get_pid unparameterized = 0
get_pid (parameterized p) = p
get_pid (auto_parameterized a) = a

abbrev with_parameter : Parameter → ℕ → Parameter
with_parameter (auto_parameterized _) aid = auto_parameterized aid
with_parameter p aid = p

unfoldable pub set_parameter : Action → ℕ → Action
set_parameter x aid = record x { parameter = with_parameter x.parameter aid }

-- operator== of action_executor_interface.
unfoldable pub same : Action → Action → Bool
unfolding get_pid
same x y =
    x.aid == y.aid && x.member_ptr == y.member_ptr && get_pid x.parameter == get_pid y.parameter

-- operator<
unfoldable pub less : Action → Action → Bool
unfolding get_pid
less x y =
    if x.aid == y.aid
    then if x.member_ptr == y.member_ptr
      then ltb (get_pid x.parameter) (get_pid y.parameter)
      else ltb x.member_ptr y.member_ptr
    else ltb x.aid y.aid

-- output_core::record, less the references.
pub record Binding : Type 0 where
  pub input : Action
  pub binder : ℕ
  pub key : ℕ

-- An output executor: its action, and m_records by the aid of the input.
pub record Output : Type 0 where
  pub action : Action
  pub records : List (ℕ × Binding)

-- What the constructor and the destructor of a record do to the model and to the scheduler.
pub data Effect : Type 0 where
  add_bind_key remove_bind_key : (binder key : ℕ) → Effect
  post : Event → Effect

-- The constructor of a record.
unfoldable pub construct : Action → Binding → List Effect
construct output b =
    add_bind_key b.binder b.key
    ∷ post (bound_to b.binder bound b.key)
    ∷ post (output_bound output)
    ∷ post (input_bound b.input)
    ∷ []

-- The destructor of a record.
unfoldable pub destruct : Action → Binding → List Effect
destruct output b =
    remove_bind_key b.binder b.key
    ∷ post (unbound_from b.binder unbound b.key)
    ∷ post (output_unbound output)
    ∷ post (input_unbound b.input)
    ∷ []

unfoldable pub involves_output : Output → Action → Bool
unfolding same
involves_output o output = same o.action output

abbrev is_input : Action → Option Binding → Bool
is_input input none = false
is_input input (some b) = same b.input input

unfoldable pub involves_input : Output → Action → Bool
unfolding same lookup
involves_input o input = is_input input (lookup input.aid o.records)

unfoldable pub involves_input_automaton : Output → ℕ → Bool
unfolding lookup
involves_input_automaton o aid = is_some (lookup aid o.records)

abbrev is_binding : Action → Action → Action → ℕ → Option Binding → Bool
is_binding this output input binder none = false
is_binding this output input binder (some b) =
    same this output && same b.input input && b.binder == binder

unfoldable pub involves_binding : Output → Action → Action → ℕ → Bool
unfolding same lookup
involves_binding o output input binder =
    is_binding o.action output input binder (lookup input.aid o.records)

-- `pos->second->m_binder == binder && pos->second->m_key == key`
abbrev pub bound_by : ℕ → ℕ → Binding → Bool
bound_by binder key b = b.binder == binder && b.key == key

unfoldable pub any_bound_by : ℕ → ℕ → List (ℕ × Binding) → Bool
any_bound_by binder key [] = false
any_bound_by binder key ((a, b) ∷ m) = bound_by binder key b || any_bound_by binder key m

unfoldable pub involves_aid_key : Output → ℕ → ℕ → Bool
unfolding any_bound_by
involves_aid_key o binder key = any_bound_by binder key o.records

unfoldable pub is_empty : Output → Bool
is_empty o = length o.records == 0

unfoldable pub size : Output → ℕ
size o = length o.records

-- A copy of an output executor has the action and no records.
unfoldable pub clone : Output → Output
clone o = record o { records = [] }

-- The record is made before the map decides whether it has room for it.
unfoldable pub bind : Output → Action → ℕ → ℕ → Output × List Effect
unfolding construct insert
bind o input binder key =
    let b : Binding = record { input = input; binder = binder; key = key } in
    (record o { records = insert input.aid b o.records }, construct o.action b)

-- The loop of `unbind`: the first record of that binder and key goes.
unfoldable pub unbind_first : Action → ℕ → ℕ → List (ℕ × Binding) → List (ℕ × Binding) × List Effect
unfolding destruct
unbind_first output binder key [] = ([], [])
unbind_first output binder key ((a, b) ∷ m) =
    let (rest, effects) = unbind_first output binder key m in
    if bound_by binder key b then (m, destruct output b) else ((a, b) ∷ rest, effects)

unfoldable pub unbind : Output → ℕ → ℕ → Output × List Effect
unfolding unbind_first
unbind o binder key =
    let (rest, effects) = unbind_first o.action binder key o.records in
    (record o { records = rest }, effects)

-- `pos->first == aid || pos->second->m_binder == aid`
abbrev pub touches : ℕ → ℕ × Binding → Bool
touches aid (a, b) = a == aid || b.binder == aid

unfoldable pub destruct_all : Action → List (ℕ × Binding) → List Effect
unfolding destruct
destruct_all output [] = []
destruct_all output ((a, b) ∷ m) = destruct output b ++ destruct_all output m

unfoldable pub unbind_touched : Action → ℕ → List (ℕ × Binding) → List (ℕ × Binding) × List Effect
unfolding destruct
unbind_touched output aid [] = ([], [])
unbind_touched output aid (e ∷ m) =
    let (rest, effects) = unbind_touched output aid m in
    if touches aid e then (rest, destruct output e.1 ++ effects) else (e ∷ rest, effects)

unfoldable pub unbind_automaton : Output → ℕ → Output × List Effect
unfolding destruct_all unbind_touched
unbind_automaton o aid =
    let (rest, effects) = unbind_touched o.action aid o.records in
    if aid == o.action.aid
    then (record o { records = [] }, destruct_all o.action o.records)
    else (record o { records = rest }, effects)
