-- ===== src/Event.antt =====
-- The calls that the model and the executors make of the system scheduler
-- (include/ioa/system_scheduler_interface.hpp), as values, and the result codes of
-- include/ioa/automaton.hpp. A `void*` key is its address, and an aid its 64-bit pattern.
use ioa.Prelude.{ℕ, ◌-◌, ◌^◌, Bool, true, not, ◌==◌}

pub data Created : Type 0 where
  create_key_exists instance_exists automaton_created : Created

pub data BoundResult : Type 0 where
  bind_key_exists output_automaton_dne input_automaton_dne binding_exists : BoundResult
  output_action_unavailable input_action_unavailable bound : BoundResult

pub data UnboundResult : Type 0 where
  bind_key_dne unbound : UnboundResult

pub data Destroyed : Type 0 where
  create_key_dne automaton_destroyed : Destroyed

-- -1 as an aid_t: no automaton.
unfoldable pub no_aid : ℕ
no_aid = 2 ^ 64 - 1

-- How an action takes a parameter; `auto_parameterized` holds the aid set last, -1 at first.
pub data Parameter : Type 0 where
  unparameterized : Parameter
  parameterized auto_parameterized : ℕ → Parameter

-- Whether an aid has been set, where there is one.
unfoldable pub is_set : Parameter → Bool
unfolding no_aid
is_set (auto_parameterized a) = not (a == no_aid)
is_set _ = true

-- The state that every action_executor_impl has: the handle, the class I, the member and the
-- parameter.
pub record Action : Type 0 where
  pub aid : ℕ
  pub class : ℕ
  pub member_ptr : ℕ
  pub parameter : Parameter

pub data Event : Type 0 where
  set_current_aid : ℕ → Event
  clear_current_aid : Event
  create bind : (aid request key : ℕ) → Event
  unbind destroy : (aid key : ℕ) → Event
  created : (aid : ℕ) → Created → (key child : ℕ) → Event
  bound_to : (aid : ℕ) → BoundResult → (key : ℕ) → Event
  unbound_from : (aid : ℕ) → UnboundResult → (key : ℕ) → Event
  destroyed : (aid : ℕ) → Destroyed → (key : ℕ) → Event
  output_bound input_bound output_unbound input_unbound : Action → Event
