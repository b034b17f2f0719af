-- ===== src/Model/Execute.antt =====
-- The `execute` functions of lib/model.cpp. They run under the shared lock and leave the model as
-- it is: each returns its status and the steps that it takes. What the user's code answers is an
-- argument.
use ioa.Prelude.{ℕ, Bool, true, false, not, List, [], Option, none, some, if◌then◌else◌}
use ioa.SequentialSet.{has}
use ioa.Event.{Action, Event, create, bind, unbind, destroy}
use ioa.Executor.{Output, involves_output}
use ioa.Executor.Run.{Step, run_output, run_internal, run_system_input, run_notice}
use ioa.Model.{Model, Status, success, failure, tell}
use ioa.Model.Bind.{fetch_instance, find_if, fresh_output, binding_output_equal}

-- The executor that an output runs by: the one in m_bindings, or, with no input bound, its own.
abbrev pub runner : Action → Option Output → Output
runner x none = fresh_output x
runner x (some o) = o

unfoldable pub execute_output : Model → Action → Bool → Status × List Step
unfolding fetch_instance find_if involves_output run_output
execute_output m x enabled =
    if not (fetch_instance m x)
    then (failure, [])
    else (success, run_output (runner x (find_if (binding_output_equal x) m.bindings)) enabled)

unfoldable pub execute_internal : Model → Action → Bool → Status × List Step
unfolding fetch_instance run_internal
execute_internal m x enabled =
    if not (fetch_instance m x) then (failure, []) else (success, run_internal x enabled)

unfoldable pub execute_system_input : Model → Action → Status × List Step
unfolding fetch_instance run_system_input
execute_system_input m x =
    if not (fetch_instance m x) then (failure, []) else (success, run_system_input x)

-- execute_output_bound, execute_input_bound, execute_output_unbound and execute_input_unbound.
unfoldable pub execute_notice : Model → Action → Status × List Step
unfolding fetch_instance run_notice
execute_notice m x = if not (fetch_instance m x) then (failure, []) else (success, run_notice x)

-- What the effect of a system output asks for: a request and its key, or a key alone.
pub data Request : Type 0 where
  create_request bind_request : (request key : ℕ) → Request
  unbind_request destroy_request : (key : ℕ) → Request

abbrev event_of : ℕ → Request → Event
event_of aid (create_request request key) = create aid request key
event_of aid (bind_request request key) = bind aid request key
event_of aid (unbind_request key) = unbind aid key
event_of aid (destroy_request key) = destroy aid key

-- The call of the scheduler stands after the lock's release; with the precondition false there is
-- none.
abbrev pub forward : Model → ℕ → Option Request → Model
forward m aid none = m
forward m aid (some r) = tell m (event_of aid r)

abbrev pub is_asked : Option Request → Bool
is_asked none = false
is_asked (some r) = true

-- execute_sys_create, execute_sys_bind, execute_sys_unbind and execute_sys_destroy; `x` is the
-- system output, and `asked` is none where its precondition is false.
unfoldable pub execute_sys : Model → Action → Option Request → (Status × List Step) × Model
unfolding run_internal
execute_sys m x asked =
    if not (has m.aids x.aid)
    then ((failure, []), m)
    else ((success, run_internal x (is_asked asked)), forward m x.aid asked)
