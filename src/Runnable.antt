-- ===== src/Runnable.antt =====
-- The runnables of lib/ (create_runnable.hpp and the others) and of include/ioa/action_runnable.hpp:
-- each keeps the arguments of one method of the model and calls it when it is run.
pub mod Total
pub mod Answers
use ioa.Prelude.{ℕ, Bool, List, [], Option, ◌&&◌, not}
use ioa.Outcome.{Outcome, done, ◌>>=◌}
use ioa.Event.{Action, Created, BoundResult, UnboundResult, Destroyed}
use ioa.Executor.{same, less}
use ioa.Executor.Run.{Step}
use ioa.AutomatonRecord.{Instance}
use ioa.Automaton.{Automaton}
use ioa.Automaton
use ioa.Model.{Model, Status, success, failure, create}
use ioa.Model.Bind.{bind, unbind}
use ioa.Model.Destroy.{destroy}
use ioa.Model.Execute.{
  Request, execute_output, execute_internal, execute_system_input, execute_notice, execute_sys,
}

-- The runnables of an automaton's own actions, which may stand in an execution queue: those of
-- make_action_runnable, for an output or an internal action, and output_exec_runnable.
pub data ActionRunnable : Type 0 where
  output_runnable internal_runnable output_exec_runnable : Action → ActionRunnable

unfoldable pub get_action : ActionRunnable → Action
get_action (output_runnable x) = x
get_action (internal_runnable x) = x
get_action (output_exec_runnable x) = x

-- operator== and operator< of action_runnable_interface.
unfoldable pub equal : ActionRunnable → ActionRunnable → Bool
unfolding same get_action
equal a b = same (get_action a) (get_action b)

unfoldable pub precedes : ActionRunnable → ActionRunnable → Bool
unfolding less get_action
precedes a b = less (get_action a) (get_action b)

-- What a std::map ordered by compare_action_runnable takes for one key.
unfoldable pub equivalent : ActionRunnable → ActionRunnable → Bool
unfolding precedes
equivalent a b = not (precedes a b) && not (precedes b a)

-- A runnable of the system queue. `request` names the allocator or the bind executor that it owns.
-- The action of a sys_ runnable is that of its automaton.
pub data Runnable : Type 0 where
  create_runnable bind_runnable : (automaton request key : ℕ) → Runnable
  unbind_runnable destroy_runnable : (automaton key : ℕ) → Runnable
  sys_create_runnable sys_bind_runnable sys_unbind_runnable : (automaton : ℕ) → Runnable
  sys_destroy_runnable : (automaton : ℕ) → Runnable
  output_bound_runnable input_bound_runnable output_unbound_runnable : Action → Runnable
  input_unbound_runnable : Action → Runnable
  -- make_action_runnable for sys_created, sys_bound, sys_unbound and sys_destroyed.
  created_runnable : (aid : ℕ) → Created → (key child : ℕ) → Runnable
  bound_runnable : (aid : ℕ) → BoundResult → (key : ℕ) → Runnable
  unbound_runnable : (aid : ℕ) → UnboundResult → (key : ℕ) → Runnable
  destroyed_runnable : (aid : ℕ) → Destroyed → (key : ℕ) → Runnable

-- The actions of the class `automaton` that the library schedules itself.
pub data SystemOutput : Type 0 where
  sys_create sys_bind sys_unbind sys_destroy : SystemOutput

pub data SystemInput : Type 0 where
  sys_created sys_bound sys_unbound sys_destroyed : SystemInput

-- The code that is the user's or the compiler's: what an allocator makes, the actions of a bind
-- executor, what the preconditions answer, what a system output asks for, the executors of the
-- members of `automaton`, and what an automaton's own part of the class `automaton` keeps when a
-- system input is run on it.
pub record User : Type 0 where
  pub allocator : ℕ → Option Instance
  pub output_of : ℕ → Action
  pub input_of : ℕ → Action
  pub enabled : Action → Bool
  pub asked : ℕ → SystemOutput → Option Request
  pub output_member : ℕ → SystemOutput → Action
  pub input_member : ℕ → SystemInput → Action
  pub state_of : ℕ → Automaton

-- operator() of a runnable of an action. The model stays as it is.
unfoldable pub run_action : User → Model → ActionRunnable → Status × List Step
unfolding execute_output execute_internal
run_action u m (output_runnable x) = execute_output m x (u.enabled x)
run_action u m (internal_runnable x) = execute_internal m x (u.enabled x)
run_action u m (output_exec_runnable x) = execute_output m x (u.enabled x)

-- The steps of a method that runs no code of an automaton.
abbrev silent {ℓ} : {A : Type ℓ} → Outcome (A × Model) → Outcome (List Step × Model)
silent r = do (a, m) ← r; done ([], m)

-- operator() of each class, by its members.
unfoldable pub run_create : User → Model → (automaton request key : ℕ) → Outcome (List Step × Model)
unfolding create
run_create u m aid request key = silent (create m aid (u.allocator request) key)

unfoldable pub run_bind : User → Model → (automaton request key : ℕ) → Outcome (List Step × Model)
unfolding bind
run_bind u m aid request key = silent (bind m aid (u.output_of request) (u.input_of request) key)

unfoldable pub run_unbind : Model → (automaton key : ℕ) → Outcome (List Step × Model)
unfolding unbind
run_unbind m aid key = silent (unbind m aid key)

unfoldable pub run_destroy : Model → (automaton key : ℕ) → Outcome (List Step × Model)
unfolding destroy
run_destroy m aid key = silent (destroy m aid key)

-- execute_sys_create and the other three.
abbrev run_sys : User → Model → ℕ → SystemOutput → List Step × Model
run_sys u m aid what =
    let ((status, steps), m') = execute_sys m (u.output_member aid what) (u.asked aid what) in
    (steps, m')

unfoldable pub run_sys_create : User → Model → (automaton : ℕ) → List Step × Model
unfolding execute_sys
run_sys_create u m aid = run_sys u m aid sys_create

unfoldable pub run_sys_bind : User → Model → (automaton : ℕ) → List Step × Model
unfolding execute_sys
run_sys_bind u m aid = run_sys u m aid sys_bind

unfoldable pub run_sys_unbind : User → Model → (automaton : ℕ) → List Step × Model
unfolding execute_sys
run_sys_unbind u m aid = run_sys u m aid sys_unbind

unfoldable pub run_sys_destroy : User → Model → (automaton : ℕ) → List Step × Model
unfolding execute_sys
run_sys_destroy u m aid = run_sys u m aid sys_destroy

unfoldable pub run_output_bound : Model → Action → List Step
unfolding execute_notice
run_output_bound m x = (execute_notice m x).1

unfoldable pub run_input_bound : Model → Action → List Step
unfolding execute_notice
run_input_bound m x = (execute_notice m x).1

unfoldable pub run_output_unbound : Model → Action → List Step
unfolding execute_notice
run_output_unbound m x = (execute_notice m x).1

unfoldable pub run_input_unbound : Model → Action → List Step
unfolding execute_notice
run_input_unbound m x = (execute_notice m x).1

-- The effect of a system input is the class `automaton`'s: an assertion that fails in it is a fault.
-- It is called only if the automaton is there.
abbrev obeyed : Status × List Step → Outcome (Automaton × List Automaton.Call) → Outcome (List Step)
obeyed (failure, steps) effect = done steps
obeyed (success, steps) effect = do a ← effect; done steps

-- An action_runnable of a system input.
unfoldable pub run_input :
    User → Model → ℕ → SystemInput → Outcome (Automaton × List Automaton.Call) → Outcome (List Step)
unfolding execute_system_input
run_input u m aid what effect = obeyed (execute_system_input m (u.input_member aid what)) effect

unfoldable pub run_created :
    User → Model → (aid : ℕ) → Created → (key child : ℕ) → Outcome (List Step)
unfolding run_input Automaton.sys_created_effect
run_created u m aid t key child =
    run_input u m aid sys_created (Automaton.sys_created_effect (u.state_of aid) t key child)

unfoldable pub run_bound : User → Model → (aid : ℕ) → BoundResult → (key : ℕ) → Outcome (List Step)
unfolding run_input Automaton.sys_bound_effect
run_bound u m aid t key =
    run_input u m aid sys_bound (Automaton.sys_bound_effect (u.state_of aid) t key)

unfoldable pub run_unbound :
    User → Model → (aid : ℕ) → UnboundResult → (key : ℕ) → Outcome (List Step)
unfolding run_input Automaton.sys_unbound_effect
run_unbound u m aid t key =
    run_input u m aid sys_unbound (Automaton.sys_unbound_effect (u.state_of aid) t key)

unfoldable pub run_destroyed :
    User → Model → (aid : ℕ) → Destroyed → (key : ℕ) → Outcome (List Step)
unfolding run_input Automaton.sys_destroyed_effect
run_destroyed u m aid t key =
    run_input u m aid sys_destroyed (Automaton.sys_destroyed_effect (u.state_of aid) t key)

-- The steps of a run that leaves the model as it is.
abbrev pub unchanged : Model → Outcome (List Step) → Outcome (List Step × Model)
unchanged m r = do steps ← r; done (steps, m)

-- operator() of a runnable of the system queue.
unfoldable pub run : User → Model → Runnable → Outcome (List Step × Model)
unfolding run_create run_bind run_unbind run_destroy run_sys_create run_sys_bind run_sys_unbind
    run_sys_destroy run_output_bound run_input_bound run_output_unbound run_input_unbound
    run_created run_bound run_unbound run_destroyed
run u m (create_runnable aid request key) = run_create u m aid request key
run u m (bind_runnable aid request key) = run_bind u m aid request key
run u m (unbind_runnable aid key) = run_unbind m aid key
run u m (destroy_runnable aid key) = run_destroy m aid key
run u m (sys_create_runnable aid) = done (run_sys_create u m aid)
run u m (sys_bind_runnable aid) = done (run_sys_bind u m aid)
run u m (sys_unbind_runnable aid) = done (run_sys_unbind u m aid)
run u m (sys_destroy_runnable aid) = done (run_sys_destroy u m aid)
run u m (output_bound_runnable x) = done (run_output_bound m x, m)
run u m (input_bound_runnable x) = done (run_input_bound m x, m)
run u m (output_unbound_runnable x) = done (run_output_unbound m x, m)
run u m (input_unbound_runnable x) = done (run_input_unbound m x, m)
run u m (created_runnable aid t key child) = unchanged m (run_created u m aid t key child)
run u m (bound_runnable aid t key) = unchanged m (run_bound u m aid t key)
run u m (unbound_runnable aid t key) = unchanged m (run_unbound u m aid t key)
run u m (destroyed_runnable aid t key) = unchanged m (run_destroyed u m aid t key)
