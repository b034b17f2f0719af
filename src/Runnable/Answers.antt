-- ===== src/Runnable/Answers.antt =====
-- The answers of the model to an automaton (lib/automaton.cpp), as runnables of its system inputs.
use ioa.Prelude.{ℕ, ◌≡◌, refl, ◌⊎◌, inl, inr, arith, Bool-cases, true, List, []}
use ioa.Outcome.{Outcome, fault, done, IsDone, ≢-IsDone, >>=-IsDone}
use ioa.Event.{
  is_set, Created, create_key_exists, instance_exists, automaton_created, BoundResult,
  bind_key_exists, output_automaton_dne, input_automaton_dne, binding_exists,
  output_action_unavailable, input_action_unavailable, bound, UnboundResult, bind_key_dne, unbound,
  Destroyed, create_key_dne, automaton_destroyed,
}
use ioa.Requests.{Requests, failed, succeeded, finished}
use ioa.Requests.Phases.{phase, waiting, withdrawn, active, closing, undoing}
use ioa.Automaton.{Automaton}
use ioa.Automaton
use ioa.Executor.Run.{Step, run_system_input, all_set}
use ioa.Model.{Model}
use ioa.Model.Bind.{fetch_instance}
use ioa.Model.Execute.{execute_system_input}
use ioa.Runnable.{
  Runnable, User, SystemInput, run_input, run_created, run_bound, run_unbound, run_destroyed,
  output_bound_runnable, input_bound_runnable, output_unbound_runnable, input_unbound_runnable,
  created_runnable, bound_runnable, unbound_runnable, destroyed_runnable,
}

-- The helper's answer is due: its request is sent and not answered.
abbrev pub IsAwaited : Requests → ℕ → Type 0
IsAwaited r key = (phase r key ≡ waiting) ⊎ (phase r key ≡ withdrawn)

-- The helper's request is sent, and there has been no notice of its end.
abbrev pub IsOpen : Requests → ℕ → Type 0
IsOpen r key =
    IsAwaited r key ⊎ ((phase r key ≡ active) ⊎ ((phase r key ≡ closing) ⊎ (phase r key ≡ undoing)))

-- What the protocol of helpers promises of an answer to an automaton: the results that the library
-- says are prevented do not come, and the others come to a helper that they are due to. A notice is
-- for an action whose parameter, if it has one that is set, has been set.
abbrev pub IsDue : User → Runnable → Type 0
IsDue u (created_runnable aid create_key_exists key child) = ⊥
IsDue u (created_runnable aid _ key child) = IsAwaited (u.state_of aid).creates key
IsDue u (bound_runnable aid bind_key_exists key) = ⊥
IsDue u (bound_runnable aid _ key) = IsAwaited (u.state_of aid).binds key
IsDue u (unbound_runnable aid bind_key_dne key) = ⊥
IsDue u (unbound_runnable aid unbound key) = IsOpen (u.state_of aid).binds key
IsDue u (destroyed_runnable aid create_key_dne key) = ⊥
IsDue u (destroyed_runnable aid automaton_destroyed key) = IsOpen (u.state_of aid).creates key
IsDue u (output_bound_runnable x) = is_set x.parameter ≡ true
IsDue u (input_bound_runnable x) = is_set x.parameter ≡ true
IsDue u (output_unbound_runnable x) = is_set x.parameter ≡ true
IsDue u (input_unbound_runnable x) = is_set x.parameter ≡ true
IsDue u _ = Unit

failed-IsDone : (r : Requests) (h : ℕ) → IsAwaited r h → IsDone (failed r h)
unfolding failed phase
failed-IsDone r h w = ≢-IsDone _ (λ e. ground arith)

succeeded-IsDone : (r : Requests) (h : ℕ) → IsAwaited r h → IsDone (succeeded r h)
unfolding succeeded phase
succeeded-IsDone r h w = ≢-IsDone _ (λ e. ground arith)

finished-IsDone : (r : Requests) (h : ℕ) → IsOpen r h → IsDone (finished r h)
unfolding finished phase
finished-IsDone r h w = ≢-IsDone _ (λ e. ground arith)

-- A system input runs if the effect of the class `automaton` does.
input-IsDone :
    (u : User) (m : Model) (aid : ℕ) (what : SystemInput)
    (effect : Outcome (Automaton × List Automaton.Call))
    → IsDone effect
    → IsDone (run_input u m aid what effect)
unfolding run_input execute_system_input
input-IsDone u m aid what fault (x, e) = cc
input-IsDone u m aid what (done x) e =
    let x' = u.input_member aid what in
    elim (Bool-cases (fetch_instance m x')) [
      | inl there ↦ (run_system_input x', rw there refl)
      | inr gone ↦ ([], rw gone refl)
    ]

pub input-all_set :
    (u : User) (m : Model) (aid : ℕ) (what : SystemInput)
    (effect : Outcome (Automaton × List Automaton.Call)) (steps : List Step)
    → run_input u m aid what effect ≡ done steps
    → all_set steps ≡ true
unfolding run_input execute_system_input run_system_input all_set
input-all_set u m aid what fault steps e =
    elim (Bool-cases (fetch_instance m (u.input_member aid what))) [
      | inl there ↦ ground arith
      | inr gone ↦ ground arith
    ]
input-all_set u m aid what (done x) steps e =
    elim (Bool-cases (fetch_instance m (u.input_member aid what))) [
      | inl there ↦ ground arith
      | inr gone ↦ ground arith
    ]

module _ (u : User) (m : Model) (aid key : ℕ) where
  pub created-IsDone :
      (t : Created) (child : ℕ)
      → IsDue u (created_runnable aid t key child)
      → IsDone (run_created u m aid t key child)
  unfolding run_created Automaton.sys_created_effect
  created-IsDone create_key_exists child h = absurd h
  created-IsDone instance_exists child h =
      input-IsDone u m aid _ _
        (>>=-IsDone _ _ (failed-IsDone (u.state_of aid).creates key h) (λ r. (_, refl)))
  created-IsDone automaton_created child h =
      input-IsDone u m aid _ _
        (>>=-IsDone _ _ (succeeded-IsDone (u.state_of aid).creates key h) (λ r. (_, refl)))

  pub bound-IsDone :
      (t : BoundResult) → IsDue u (bound_runnable aid t key) → IsDone (run_bound u m aid t key)
  unfolding run_bound Automaton.sys_bound_effect
  bound-IsDone bind_key_exists h = absurd h
  bound-IsDone bound h =
      input-IsDone u m aid _ _
        (>>=-IsDone _ _ (succeeded-IsDone (u.state_of aid).binds key h) (λ r. (_, refl)))
  bound-IsDone output_automaton_dne h =
      input-IsDone u m aid _ _
        (>>=-IsDone _ _ (failed-IsDone (u.state_of aid).binds key h) (λ r. (_, refl)))
  bound-IsDone input_automaton_dne h =
      input-IsDone u m aid _ _
        (>>=-IsDone _ _ (failed-IsDone (u.state_of aid).binds key h) (λ r. (_, refl)))
  bound-IsDone binding_exists h =
      input-IsDone u m aid _ _
        (>>=-IsDone _ _ (failed-IsDone (u.state_of aid).binds key h) (λ r. (_, refl)))
  bound-IsDone output_action_unavailable h =
      input-IsDone u m aid _ _
        (>>=-IsDone _ _ (failed-IsDone (u.state_of aid).binds key h) (λ r. (_, refl)))
  bound-IsDone input_action_unavailable h =
      input-IsDone u m aid _ _
        (>>=-IsDone _ _ (failed-IsDone (u.state_of aid).binds key h) (λ r. (_, refl)))

  pub unbound-IsDone :
      (t : UnboundResult)
      → IsDue u (unbound_runnable aid t key)
      → IsDone (run_unbound u m aid t key)
  unfolding run_unbound Automaton.sys_unbound_effect
  unbound-IsDone bind_key_dne h = absurd h
  unbound-IsDone unbound h =
      input-IsDone u m aid _ _
        (>>=-IsDone _ _ (finished-IsDone (u.state_of aid).binds key h) (λ r. (_, refl)))

  pub destroyed-IsDone :
      (t : Destroyed)
      → IsDue u (destroyed_runnable aid t key)
      → IsDone (run_destroyed u m aid t key)
  unfolding run_destroyed Automaton.sys_destroyed_effect
  destroyed-IsDone create_key_dne h = absurd h
  destroyed-IsDone automaton_destroyed h =
      input-IsDone u m aid _ _
        (>>=-IsDone _ _ (finished-IsDone (u.state_of aid).creates key h) (λ r. (_, refl)))
