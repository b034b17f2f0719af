-- ===== src/AutomatonManager.antt =====
-- include/ioa/automaton_manager.hpp: the helper that asks for the creation of an automaton.
pub mod Handles
use ioa.Prelude.{
  ℕ, ◌≡◌, Bool, true, false, not, List, [], ◌∷◌, ◌++◌, Option, none, some, if◌then◌else◌,
}
use ioa.Outcome.{Outcome, fault, done, ◌>>=◌}
use ioa.Event.{
  Created, create_key_exists, instance_exists, automaton_created, Destroyed, create_key_dne,
  automaton_destroyed,
}

-- START, INSTANCE_EXISTS, CREATED and DESTROYED.
pub data State : Type 0 where
  start exists is_created is_destroyed : State

-- A handle of -1 is `none`; the object is alive until `delete this`.
pub record AutomatonManager : Type 0 where
  pub handle : Option ℕ
  pub state : State
  pub alive : Bool

-- m_automaton->create (this), m_automaton->destroy (this) and notify_observers ().
pub data Call : Type 0 where
  asks_create asks_destroy notifies : Call

unfoldable pub init : AutomatonManager × List Call
init = (record { handle = none; state = start; alive = true }, asks_create ∷ [])

unfoldable pub destroy : AutomatonManager → AutomatonManager × List Call
destroy m = (m, asks_destroy ∷ [])

-- The aid of a creation that succeeded is one that the model gave, and so never -1.
unfoldable pub created : Created → ℕ → AutomatonManager → Outcome (AutomatonManager × List Call)
created create_key_exists aid m = fault
created instance_exists aid m =
    done (record { handle = none; state = exists; alive = false }, notifies ∷ [])
created automaton_created aid m =
    done (record m { handle = some aid; state = is_created }, notifies ∷ [])

unfoldable pub destroyed : Destroyed → AutomatonManager → Outcome (AutomatonManager × List Call)
destroyed create_key_dne m = fault
destroyed automaton_destroyed m =
    done (record { handle = none; state = is_destroyed; alive = false }, notifies ∷ [])

-- What may happen to a manager: the user asks for the end, or the automaton answers.
pub data Happening : Type 0 where
  destroys : Happening
  answers_created : Created → (aid : ℕ) → Happening
  answers_destroyed : Destroyed → Happening

unfoldable pub happen : Happening → AutomatonManager → Outcome (AutomatonManager × List Call)
unfolding destroy created destroyed
happen destroys m = done (destroy m)
happen (answers_created result aid) m = created result aid m
happen (answers_destroyed result) m = destroyed result m

-- Any sequence of happenings to a manager that is not deleted, without a fault.
pub data Reaches (a : AutomatonManager) : AutomatonManager → Type 0 where
  here : Reaches a a
  next :
      {b c : AutomatonManager} (h : Happening) (calls : List Call)
      → Reaches a b
      → b.alive ≡ true
      → happen h b ≡ done (c, calls)
      → Reaches a c
