-- ===== src/Model/Destroy.antt =====
-- `destroy`, `inner_destroy` and `clear` of lib/model.cpp.
use ioa.Prelude.{
  ℕ, zero, suc, Bool, true, false, not, List, [], ◌∷◌, ◌++◌, Option, none, some, if◌then◌else◌,
  length,
}
use ioa.FinSet
use ioa.FinMap
use ioa.Outcome.{Outcome, fault, done, ◌>>=◌, or_fault}
use ioa.SequentialSet.{replace, has, is_empty}
use ioa.Event.{destroyed, create_key_dne, automaton_destroyed}
use ioa.Executor.{Output, Effect}
use ioa.Executor
use ioa.AutomatonRecord.{AutomatonRecord, get_child, get_first_child}
use ioa.AutomatonRecord
use ioa.Model.{Model, Status, success, failure, tell, update, record_of, perform_all}

-- The loop over m_bindings: what is left of the list, and what the destructors of the removed
-- records do. An executor left without a record goes.
unfoldable pub unbind_outputs : ℕ → List Output → List Output × List Effect
unfolding Executor.unbind_automaton Executor.is_empty
unbind_outputs aid [] = ([], [])
unbind_outputs aid (o ∷ os) =
    let (rest, later) = unbind_outputs aid os in
    let (c, effects) = Executor.unbind_automaton o aid in
    (if Executor.is_empty c then rest else c ∷ rest, effects ++ later)

-- `parent->remove_child`, with the notice that it gives to the parent.
abbrev pub disown : Option ℕ → ℕ → Model → Outcome Model
disown none key m = done m
disown (some parent) key m = do
  m' ← update parent (AutomatonRecord.remove_child key) m
  done (tell m' (destroyed parent automaton_destroyed key))

abbrev pub forget : AutomatonRecord → Model → Model
forget r m = record m {
  aids = replace m.aids r.aid;
  instances = FinSet.erase r.instance_of.address m.instances;
  records = FinMap.erase r.aid m.records;
}

-- `inner_destroy` after the loop over the children.
unfoldable pub remove_record : AutomatonRecord → Model → Outcome Model
unfolding unbind_outputs perform_all update AutomatonRecord.remove_child replace FinSet.erase
    FinMap.erase
remove_record r m = do
  let (bindings, effects) = unbind_outputs r.aid m.bindings
  m1 ← perform_all effects (record m { bindings = bindings })
  m2 ← disown r.parent r.key m1
  done (forget r m2)

-- `inner_destroy`: while the automaton has a child, the first one is destroyed. The record is read
-- again in each round, since the children leave its map. A fault stands for the end of the fuel too.
unfoldable pub inner_destroy : ℕ → ℕ → Model → Outcome Model
unfolding remove_record get_first_child FinMap.lookup
inner_destroy zero aid m = fault
inner_destroy (suc fuel) aid m = elim (FinMap.lookup aid m.records) [
  | none ↦ fault
  | some r ↦ elim (get_first_child r) [
    | none ↦ remove_record r m
    | some (key, child) ↦ inner_destroy fuel child m >>= inner_destroy fuel aid
  ]
]

-- Each nested call and each further round goes on with fewer records at the call's depth or below.
abbrev pub enough : Model → ℕ
enough m = suc (length m.records)

unfoldable pub destroy_root : Model → (target : ℕ) → Outcome (Status × Model)
unfolding inner_destroy
destroy_root m target =
    if not (has m.aids target)
    then done (failure, m)
    else do m' ← inner_destroy (enough m) target m; done (success, m')

unfoldable pub destroy : Model → (automaton key : ℕ) → Outcome (Status × Model)
unfolding inner_destroy get_child AutomatonRecord.create_key_exists FinMap.lookup
destroy m automaton key = if not (has m.aids automaton) then done (failure, m) else do
  r ← or_fault (record_of automaton m)
  if not (AutomatonRecord.create_key_exists r key)
      then done (failure, tell m (destroyed automaton create_key_dne key))
      else do
        child ← or_fault (get_child r key)
        m' ← inner_destroy (enough m) child m
        done (success, m')

abbrev pub is_root : AutomatonRecord → Bool
is_root r = elim r.parent [ none ↦ true | some _ ↦ false ]

-- The for loop of `clear`: the first automaton with no parent.
unfoldable pub first_root : List (ℕ × AutomatonRecord) → Option ℕ
first_root [] = none
first_root ((aid, r) ∷ rs) = if is_root r then some aid else first_root rs

abbrev pub is_nil {ℓ} : {A : Type ℓ} → List A → Bool
is_nil [] = true
is_nil (_ ∷ _) = false

-- The while loop of `clear`. A round with no root left would go on for ever: it uses up the fuel.
unfoldable pub clear_from : ℕ → Model → Outcome Model
unfolding first_root inner_destroy
clear_from zero m = fault
clear_from (suc fuel) m = elim (is_nil m.records) [
  | true ↦ done m
  | false ↦ elim (first_root m.records) [
    | none ↦ clear_from fuel m
    | some aid ↦ inner_destroy (enough m) aid m >>= clear_from fuel
  ]
]

-- `clear` with the assertions at its end.
unfoldable pub clear : Model → Outcome Model
unfolding clear_from is_empty
clear m = do
  m' ← clear_from (enough m) m
  if not (is_empty m'.aids)
      then fault
      else if not (is_nil m'.instances)
      then fault
      else if not (is_nil m'.records)
      then fault
      else if not (is_nil m'.bindings)
      then fault
      else done m'
