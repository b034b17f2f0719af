-- ===== src/Scheduler/Fifo.antt =====
-- lib/global_fifo_scheduler.cpp: a scheduler with one thread, which in each round looks at the timers
-- and the file descriptors, runs one runnable of the configuration queue and one of the user queue.
pub mod Loop
pub mod Counts
pub mod Parts
pub mod Poll
pub mod Round
pub mod Hang
use ioa.Prelude.{
  ℕ, ◌+◌, ◌-◌, Bool, true, false, ◌&&◌, ◌||◌, not, List, [], ◌∷◌, ◌++◌, Option, none, some, ◌==◌,
  ltb, if◌then◌else◌, length, is_some,
}
use ioa.FinMap
use ioa.FinSet
use ioa.Outcome.{Outcome, fault, done, ◌>>=◌, or_fault}
use ioa.Time.{Time}
use ioa.Time
use ioa.Event.{
  is_set, Event, no_aid, set_current_aid, clear_current_aid, create, bind, unbind, destroy, created,
  bound_to, unbound_from, destroyed, output_bound, input_bound, output_unbound, input_unbound,
}
use ioa.Executor.Run.{Step}
use ioa.Executor.Run
use ioa.Model.{Model}
use ioa.Model
use ioa.Runnable.{
  ActionRunnable, output_exec_runnable, Runnable, create_runnable, bind_runnable, unbind_runnable,
  destroy_runnable, output_bound_runnable, input_bound_runnable, output_unbound_runnable,
  input_unbound_runnable, created_runnable, bound_runnable, unbound_runnable, destroyed_runnable,
  run, run_action,
}
use ioa.Scheduler.Timers.{Timers}
use ioa.Scheduler.Timers
use ioa.Scheduler.Files
use ioa.Scheduler.Queue.{enqueue, enqueue_all}
use ioa.Scheduler.Calls.{
  Call, schedule_sys, schedule, schedule_after, schedule_read_ready, schedule_write_ready, close,
  sys_runnable, Selected, Env,
}

-- The fields, the four maps of `run`, the number of runnables in existence, and the descriptors that
-- were given to ::close, oldest first.
pub record Fifo : Type 0 where
  pub model : Model
  pub configq : List Runnable
  pub userq : List ActionRunnable
  pub timerq : List (Time × ActionRunnable)
  pub readq : List (ℕ × ActionRunnable)
  pub writeq : List (ℕ × ActionRunnable)
  pub close_set : List ℕ
  pub current_aid : ℕ
  pub timers : Timers
  pub read_actions : List (ℕ × ActionRunnable)
  pub write_actions : List (ℕ × ActionRunnable)
  pub count : ℕ
  pub closed : List ℕ

unfoldable pub init : Fifo
unfolding no_aid Model.init Timers.init
init = record {
  model = Model.init;
  configq = [];
  userq = [];
  timerq = [];
  readq = [];
  writeq = [];
  close_set = [];
  current_aid = no_aid;
  timers = Timers.init;
  read_actions = [];
  write_actions = [];
  count = 0;
  closed = [];
}

-- A new runnable for the configuration queue.
unfoldable pub schedule_configq : Runnable → Fifo → Fifo
schedule_configq r s = record s { configq = s.configq ++ r ∷ []; count = s.count + 1 }

-- One that exists goes to the user queue or is deleted.
unfoldable pub schedule_userq : ActionRunnable → Fifo → Fifo
unfolding enqueue
schedule_userq r s =
    let (q, deleted) = enqueue r s.userq in record s { userq = q; count = s.count - deleted }

abbrev pub make : Fifo → Fifo
make s = record s { count = s.count + 1 }

unfoldable pub get_current_aid : Fifo → Outcome ℕ
get_current_aid s = if s.current_aid == no_aid then fault else done s.current_aid

unfoldable pub set_current : ℕ → Fifo → Outcome Fifo
set_current aid s = if aid == no_aid then fault else done (record s { current_aid = aid })

unfoldable pub clear_current : Fifo → Fifo
clear_current s = record s { current_aid = no_aid }

-- The functions that automata call.
unfoldable pub call : Time → Call → Fifo → Outcome Fifo
unfolding get_current_aid schedule_configq schedule_userq Time.add FinSet.insert
call now (schedule_sys what) s = do
  aid ← get_current_aid s
  done (schedule_configq (sys_runnable what aid) s)
call now (schedule r) s = done (schedule_userq r (make s))
call now (schedule_after r offset) s = do
  t ← Time.add now offset
  done (record (make s) { timerq = s.timerq ++ (t, r) ∷ [] })
call now (schedule_read_ready r fd) s = done (record (make s) { readq = s.readq ++ (fd, r) ∷ [] })
call now (schedule_write_ready r fd) s =
    done (record (make s) { writeq = s.writeq ++ (fd, r) ∷ [] })
call now (close fd) s = done (record s { close_set = FinSet.insert fd s.close_set })

unfoldable pub call_all : Time → List Call → Fifo → Outcome Fifo
unfolding call
call_all now [] s = done s
call_all now (c ∷ cs) s = do s1 ← call now c s; call_all now cs s1

-- The functions that the model calls.
unfoldable pub tell : Env → Event → Fifo → Outcome Fifo
unfolding call_all schedule_configq schedule_userq set_current clear_current
tell env (set_current_aid aid) s = do s1 ← set_current aid s; call_all env.now (env.on_aid aid) s1
tell env clear_current_aid s = done (clear_current s)
tell env (create aid request key) s = done (schedule_configq (create_runnable aid request key) s)
tell env (bind aid request key) s = done (schedule_configq (bind_runnable aid request key) s)
tell env (unbind aid key) s = done (schedule_configq (unbind_runnable aid key) s)
tell env (destroy aid key) s = done (schedule_configq (destroy_runnable aid key) s)
tell env (created aid t key child) s = done (schedule_configq (created_runnable aid t key child) s)
tell env (bound_to aid t key) s = done (schedule_configq (bound_runnable aid t key) s)
tell env (unbound_from aid t key) s = done (schedule_configq (unbound_runnable aid t key) s)
tell env (destroyed aid t key) s = done (schedule_configq (destroyed_runnable aid t key) s)
tell env (output_bound x) s =
    done (
      schedule_userq (output_exec_runnable x) (make (schedule_configq (output_bound_runnable x) s)))
tell env (input_bound x) s = done (schedule_configq (input_bound_runnable x) s)
tell env (output_unbound x) s = done (
    schedule_userq (output_exec_runnable x) (make (schedule_configq (output_unbound_runnable x) s)))
tell env (input_unbound x) s = done (schedule_configq (input_unbound_runnable x) s)

unfoldable pub tell_all : Env → List Event → Fifo → Outcome Fifo
unfolding tell
tell_all env [] s = done s
tell_all env (e ∷ es) s = do s1 ← tell env e s; tell_all env es s1

-- The steps of an executor: those that set or clear the current aid, and the calls of the code that
-- the others run.
unfoldable pub take_step : Env → Step → Fifo → Outcome Fifo
unfolding call_all set_current clear_current is_set
take_step env (Run.set_current aid) s = set_current aid s
take_step env Run.clear_current s = done (clear_current s)
take_step env (Run.assert_parameter p) s = if is_set p then done s else fault
take_step env e s = call_all env.now (env.on_step e) s

unfoldable pub take_steps : Env → List Step → Fifo → Outcome Fifo
unfolding take_step
take_steps env [] s = done s
take_steps env (e ∷ es) s = do s1 ← take_step env e s; take_steps env es s1
