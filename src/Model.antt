-- ===== src/Model.antt =====
-- lib/model.cpp: the automata of a system, their parents, and the bindings between their actions.
-- The methods that change the model run one at a time, under the model's lock.
pub mod Bind
pub mod Invariant
pub mod Effects
pub mod Unwiring
pub mod Removal
pub mod Destruction
pub mod Descent
pub mod Termination
pub mod Addition
pub mod Creation
pub mod Creators
pub mod Destroyers
pub mod Clearing
pub mod Listing
pub mod Reasons
pub mod Binding
pub mod Binders
pub mod Unbinding
pub mod Reachable
pub mod Destroy
pub mod Execute
use ioa.Prelude.{
  ℕ, zero, suc, ◌+◌, ◌≡◌, Bool, true, false, ◌&&◌, ◌||◌, not, List, [], ◌∷◌, ◌++◌, Option, none,
  some, ◌==◌, if◌then◌else◌, is_some, length,
}
use ioa.FinSet
use ioa.FinMap
use ioa.Outcome.{Outcome, fault, done, ◌>>=◌, or_fault}
use ioa.SequentialSet.{SequentialSet, take, replace, has}
use ioa.SequentialSet
use ioa.Event.{
  Action, Event, set_current_aid, clear_current_aid, created, bound_to, unbound_from, destroyed,
  create_key_exists, instance_exists, automaton_created, bind_key_exists, output_automaton_dne,
  input_automaton_dne, binding_exists, output_action_unavailable, input_action_unavailable,
  bind_key_dne, create_key_dne, automaton_destroyed, no_aid,
}
use ioa.Executor.{
  Output, Effect, add_bind_key, remove_bind_key, post, set_parameter, involves_output,
  involves_input, involves_input_automaton, involves_binding, involves_aid_key, is_empty, size,
  clone,
}
use ioa.Executor
use ioa.AutomatonRecord.{AutomatonRecord, Instance, new_record, get_child, get_first_child}
use ioa.AutomatonRecord

pub record Model : Type 0 where
  pub aids : SequentialSet
  pub instances : List ℕ
  pub records : List (ℕ × AutomatonRecord)
  pub bindings : List Output
  -- The calls made of the system scheduler, oldest first.
  pub log : List Event

-- The results 0 and -1.
pub data Status : Type 0 where
  success failure : Status

unfoldable pub init : Model
unfolding SequentialSet.init
init = record { aids = SequentialSet.init; instances = []; records = []; bindings = []; log = [] }

abbrev pub tell : Model → Event → Model
tell m e = record m { log = m.log ++ e ∷ [] }

-- A method called through `m_records[aid]`, which is null for an aid that is missing.
unfoldable pub update : ℕ → (AutomatonRecord → AutomatonRecord) → Model → Outcome Model
unfolding FinMap.lookup FinMap.modify
update aid f m = elim (FinMap.lookup aid m.records) [
  | none ↦ fault
  | some r ↦ done (record m { records = FinMap.modify aid f m.records })
]

unfoldable pub add_bind_key_of : ℕ → ℕ → Model → Outcome Model
unfolding update AutomatonRecord.add_bind_key
add_bind_key_of binder key m = update binder (AutomatonRecord.add_bind_key key) m

unfoldable pub remove_bind_key_of : ℕ → ℕ → Model → Outcome Model
unfolding update AutomatonRecord.remove_bind_key
remove_bind_key_of binder key m = update binder (AutomatonRecord.remove_bind_key key) m

-- What an executor's constructors and destructors do, one after the other.
unfoldable pub perform : Effect → Model → Outcome Model
unfolding add_bind_key_of remove_bind_key_of
perform (add_bind_key binder key) m = add_bind_key_of binder key m
perform (remove_bind_key binder key) m = remove_bind_key_of binder key m
perform (post e) m = done (tell m e)

unfoldable pub perform_all : List Effect → Model → Outcome Model
unfolding perform
perform_all [] m = done m
perform_all (e ∷ es) m = do m' ← perform e m; perform_all es m'

abbrev pub record_of : ℕ → Model → Option AutomatonRecord
record_of aid m = FinMap.lookup aid m.records

-- The two steps that both `create` functions begin with: an aid is taken, and the allocator runs
-- under it. A null instance fails the assertion.
unfoldable pub allocate : Model → Option Instance → Outcome ((ℕ × Instance) × Model)
unfolding take
allocate m allocator = do
  (aid, aids) ← or_fault (take m.aids)
  i ← or_fault allocator
  done ((aid, i), tell (tell (record m { aids = aids }) (set_current_aid aid)) clear_current_aid)

abbrev pub add_record : ℕ → Instance → AutomatonRecord → Model → Model
add_record aid i r m = record m {
  instances = FinSet.insert i.address m.instances;
  records = FinMap.insert aid r m.records;
}

unfoldable pub create_root : Model → Option Instance → Outcome (Option ℕ × Model)
unfolding allocate replace FinSet.contains FinSet.insert FinMap.insert new_record
create_root m allocator = do
  ((aid, i), m1) ← allocate m allocator
  if FinSet.contains i.address m1.instances
      then done (none, record m1 { aids = replace m1.aids aid })
      else done (some aid, add_record aid i (new_record i aid) m1)

-- `parent->add_child`, with the notice that it gives to the parent.
abbrev pub adopt : ℕ → ℕ → ℕ → Model → Outcome Model
adopt parent key child m = do
  m' ← update parent (AutomatonRecord.add_child key child) m
  done (tell m' (created parent automaton_created key child))

unfoldable pub create :
    Model → (creator : ℕ) → Option Instance → (key : ℕ) → Outcome (Option ℕ × Model)
unfolding allocate replace FinSet.contains FinSet.insert FinMap.insert FinMap.lookup update
    AutomatonRecord.create_key_exists AutomatonRecord.add_child AutomatonRecord.set_parent
    new_record
create m creator allocator key = if not (has m.aids creator) then done (none, m) else do
  r ← or_fault (record_of creator m)
  if AutomatonRecord.create_key_exists r key
      then done (none, tell m (created creator create_key_exists key no_aid))
      else do
        ((aid, i), m1) ← allocate m allocator
        if FinSet.contains i.address m1.instances
            then done (
              none,
              tell (record m1 { aids = replace m1.aids aid })
                  (created creator instance_exists key no_aid),
            )
            else do
              let child = AutomatonRecord.set_parent key (some creator) (new_record i aid)
              m2 ← adopt creator key aid (add_record aid i child m1)
              done (some aid, m2)
