-- ===== src/Model/Invariant.antt =====
-- The invariant of a model, in three parts: the family tree, the registry of ids and instances,
-- and the bindings. The parts read the records through a view without the bind keys.
use ioa.Prelude.{ℕ, ◌<◌, ◌≡◌, ◌≢◌, true, List, [], Option, none, some, All, is_some}
use ioa.FinSet
use ioa.FinMap
use ioa.SequentialSet.{SequentialSet, limit, has}
use ioa.Executor.{Binding, Output}
use ioa.Executor.Bindings.{one, count_outputs}
use ioa.AutomatonRecord.{AutomatonRecord}
use ioa.Model.{Model, record_of}

abbrev pub bare : AutomatonRecord → AutomatonRecord
bare r = record r { bind_keys = [] }

abbrev pub Census : Type 0
Census = ℕ → Option AutomatonRecord

-- What the model knows of an automaton, but for its bind keys.
abbrev pub census : Model → Census
census m a = FinMap.opt_map bare (record_of a m)

abbrev pub key_count : Option AutomatonRecord → ℕ → ℕ
key_count none key = 0
key_count (some r) key = one (FinSet.contains key r.bind_keys)

-- 1 if the automaton is there and has the bind key, and 0 otherwise.
abbrev pub keys : Model → (binder key : ℕ) → ℕ
keys m binder key = key_count (record_of binder m) key

-- Parents and children name one another, and a rank grows from parent to child.
pub record Family (rank : ℕ → ℕ) (f : Census) : Type 0 where
  pub keyed : (a : ℕ) (r : AutomatonRecord) → f a ≡ some r → r.aid ≡ a
  pub upward :
      (a p : ℕ) (r : AutomatonRecord)
      → f a ≡ some r
      → r.parent ≡ some p
      → (q : AutomatonRecord) × (f p ≡ some q) × (FinMap.lookup r.key q.children ≡ some a)
  pub downward :
      (p k a : ℕ) (q : AutomatonRecord)
      → f p ≡ some q
      → FinMap.lookup k q.children ≡ some a
      → (r : AutomatonRecord) × (f a ≡ some r) × (r.parent ≡ some p) × (r.key ≡ k)
  pub ranked : (a p : ℕ) (r : AutomatonRecord) → f a ≡ some r → r.parent ≡ some p → rank p < rank a

-- The ids in use are those of the records, and the instances those of the records, each in one.
pub record Registry (f : Census) (aids : SequentialSet) (instances : List ℕ) : Type 0 where
  pub counter : aids.counter < limit
  pub used : (a : ℕ) → has aids a ≡ is_some (f a)
  pub listed :
      (a : ℕ) (r : AutomatonRecord)
      → f a ≡ some r
      → FinSet.contains r.instance_of.address instances ≡ true
  pub distinct :
      (a b : ℕ) (r s : AutomatonRecord)
      → f a ≡ some r
      → f b ≡ some s
      → r.instance_of.address ≡ s.instance_of.address
      → a ≡ b
  pub owned :
      (i : ℕ)
      → FinSet.contains i instances ≡ true
      → (a : ℕ) × (r : AutomatonRecord) × (f a ≡ some r) × (r.instance_of.address ≡ i)

-- A record of an executor stands under the aid of its input, which is there and is not the output's.
pub record IsSound (f : Census) (output : ℕ) (e : ℕ × Binding) : Type 0 where
  pub place : e.1.input.aid ≡ e.0
  pub input_alive : is_some (f e.0) ≡ true
  pub not_output : e.0 ≢ output

-- An executor in the list has an automaton and at least one record.
pub record IsWired (f : Census) (o : Output) : Type 0 where
  pub output_alive : is_some (f o.action.aid) ≡ true
  pub bound : o.records ≢ []
  pub sound : All (IsSound f o.action.aid) o.records

-- The bind keys of an automaton are those of the bindings it made, each of one binding.
pub record Linked (f : Census) (keys_of : ℕ → ℕ → ℕ) (bindings : List Output) : Type 0 where
  pub wired : All (IsWired f) bindings
  pub balanced : (binder key : ℕ) → count_outputs binder key bindings ≡ keys_of binder key

pub record Inv (rank : ℕ → ℕ) (m : Model) : Type 0 where
  pub family : Family rank (census m)
  pub registry : Registry (census m) m.aids m.instances
  pub linked : Linked (census m) (keys m) m.bindings
