-- ===== src/Samples.antt =====
-- Small models, on which the theorems are applied: two root automata, the first with a child, and an
-- output of the first bound by the child to an input of the second.
pub mod Models
pub mod Parts
pub mod Helpers
pub mod Managers
pub mod Schedulers
pub mod Sockets
pub mod Threads
pub mod Times
use ioa.Prelude.{ℕ, ◌<◌, ◌≡◌, refl, arith, length, Bool, true, List, [], ◌∷◌, Option, none, some}
use ioa.Outcome.{Outcome, fault, done}
use ioa.SequentialSet.{limit}
use ioa.SequentialSet
use ioa.Event.{Action, unparameterized}
use ioa.AutomatonRecord.{Instance}
use ioa.Model.{Model, Status, success, init, create_root, create}
use ioa.Model.Bind
use ioa.Model.Invariant.{Inv}
use ioa.Model.Reachable.{Reaches, here, then_create_root, then_create, then_bind, init-reaches_Inv}

abbrev pub instance_at : ℕ → Instance
instance_at address = record { address = address; is_a = λ class. true }

abbrev pub action_of : (aid member_ptr : ℕ) → Action
action_of aid member_ptr = record {
  aid = aid;
  class = 1;
  member_ptr = member_ptr;
  parameter = unparameterized;
}

abbrev pub model_of : {A : Type 0} → Outcome (A × Model) → Model
model_of fault = init
model_of (done (a, m)) = m

abbrev pub one_root : Model
one_root = model_of (create_root init (some (instance_at 100)))

abbrev pub two_roots : Model
two_roots = model_of (create_root one_root (some (instance_at 200)))

abbrev pub family : Model
family = model_of (create two_roots 1 (some (instance_at 300)) 7)

abbrev pub output : Action
output = action_of 1 40

abbrev pub input : Action
input = action_of 2 50

abbrev pub bound : Model
bound = model_of (Bind.bind family 3 output input 9)

pub bound_reached : Reaches init bound
unfolding init create_root create Bind.bind limit
bound_reached =
    then_bind 3 output input 9
      (then_create 1 (instance_at 300) 7
        (then_create_root (instance_at 200)
          (then_create_root (instance_at 100) here (omega arith) refl) (omega arith) refl)
        (omega arith) refl)
      refl

pub bound_Inv : (rank : ℕ → ℕ) × Inv rank bound
bound_Inv = init-reaches_Inv bound_reached

-- The rank that goes with it.
abbrev pub rank : ℕ → ℕ
rank = bound_Inv.0

pub bound_space : length bound.aids.used < limit
unfolding init create_root create Bind.bind limit
bound_space = omega arith
