-- ===== src/Scheduler/Fifo/Loop.antt =====
-- `run` of lib/global_fifo_scheduler.cpp: one round of its loop.
use ioa.Prelude.{
  ℕ, ◌-◌, Bool, ◌||◌, not, List, [], ◌∷◌, ◌++◌, Option, none, some, ◌==◌, ltb, if◌then◌else◌,
  length, is_some, map,
}
use ioa.FinMap
use ioa.Outcome.{Outcome, done, ◌>>=◌, or_fault}
use ioa.Prelude.Int.{ℤ, pos}
use ioa.Time.{Time}
use ioa.Time.Exact
use ioa.Time
use ioa.Runnable.{ActionRunnable, Runnable, run, run_action}
use ioa.Scheduler.Timers.{Timers}
use ioa.Scheduler.Timers
use ioa.Scheduler.Files
use ioa.Scheduler.Queue.{enqueue_all}
use ioa.Scheduler.Calls.{Selected, Env}
use ioa.AutomatonRecord.{Instance}
use ioa.Model.{create_root}
use ioa.Scheduler.Fifo.{Fifo, init, call_all, tell_all, take_steps}

-- The loops over m_readq and m_writeq, once that over m_timerq has left `timers` and deleted `n`.
abbrev pub registered : Fifo → Timers → ℕ → Fifo
registered s timers n =
    let (reads, k) = Files.register s.readq s.read_actions in
    let (writes, l) = Files.register s.writeq s.write_actions in
    record s {
      timerq = [];
      readq = [];
      writeq = [];
      timers = timers;
      read_actions = reads;
      write_actions = writes;
      count = s.count - n - k - l;
    }

-- The three loops that empty the queues of registrations.
unfoldable pub register : Fifo → Outcome Fifo
unfolding Timers.register_all Files.register
register s = do (timers, n) ← Timers.register_all s.timerq s.timers; done (registered s timers n)

-- The body of the loop over m_close.
unfoldable pub close_one : ℕ → Fifo → Fifo
unfolding FinMap.lookup FinMap.erase
close_one fd s = record s {
  read_actions = FinMap.erase fd s.read_actions;
  write_actions = FinMap.erase fd s.write_actions;
  count =
      s.count
      - Files.one (is_some (FinMap.lookup fd s.read_actions))
      - Files.one (is_some (FinMap.lookup fd s.write_actions));
  closed = s.closed ++ fd ∷ [];
}

unfoldable pub close_all : List ℕ → Fifo → Fifo
unfolding close_one
close_all [] s = s
close_all (fd ∷ fds) s = close_all fds (close_one fd s)

-- schedule_userq of runnables that exist.
unfoldable pub ready_all : List ActionRunnable → Fifo → Fifo
unfolding enqueue_all
ready_all rs s =
    let (q, deleted) = enqueue_all rs s.userq in record s { userq = q; count = s.count - deleted }

unfoldable pub process_timers : Time → Fifo → Fifo
unfolding Timers.process ready_all
process_timers now s =
    let (due, timers) = Timers.process now s.timers in ready_all due (record s { timers = timers })

unfoldable pub process_reads : Selected → Fifo → Fifo
unfolding Files.take_ready ready_all
process_reads sel s =
    let (rs, rest) = Files.take_ready sel.readable s.read_actions in
    if ltb 0 sel.result then ready_all rs (record s { read_actions = rest }) else s

unfoldable pub process_writes : Selected → Fifo → Fifo
unfolding Files.take_ready ready_all
process_writes sel s =
    let (rs, rest) = Files.take_ready sel.writable s.write_actions in
    if ltb 0 sel.result then ready_all rs (record s { write_actions = rest }) else s

-- "We only need to select if we have fds or timers."
abbrev pub must_select : Fifo → Bool
must_select s =
    not (length s.read_actions == 0)
    || not (length s.write_actions == 0)
    || not (length s.timers.time_to_action == 0)

-- The timeout of ::select, in seconds and microseconds. "Start by assuming we need to wait forever."
unfoldable pub wait : Time → List (Time × ActionRunnable) → Outcome (Option (ℤ × ℤ))
unfolding Exact.greater Exact.sub Time.to_timeval
wait now [] = done none
wait now ((t, x) ∷ l) =
    if Exact.greater t now
    then (do d ← Exact.sub t now; tv ← Time.to_timeval d; done (some tv))
    else done (some (pos 0, pos 0))

-- "If we have work to do, go immediately."
abbrev pub has_work : Fifo → Bool
has_work s = not (length s.configq == 0) || not (length s.userq == 0)

unfoldable pub timeout : Time → Fifo → Outcome (Option (ℤ × ℤ))
unfolding wait
timeout now s = do
  w ← wait now s.timers.time_to_action
  done (if has_work s then some (pos 0, pos 0) else w)

abbrev pub fds_of : List (ℕ × ActionRunnable) → List ℕ
fds_of m = map (λ e. e.0) m

-- What stands under that condition. A result of -1 fails the assertion.
unfoldable pub select : Env → Option (ℤ × ℤ) → Fifo → Outcome Fifo
unfolding close_all process_timers process_reads process_writes
select env w s =
    let s1 = close_all s.close_set s in
    do
      sel ← or_fault (env.select w (fds_of s1.read_actions) (fds_of s1.write_actions))
      done (process_writes sel (process_reads sel (process_timers env.now s1)))

-- The part of a round before it runs anything.
unfoldable pub poll : Env → Fifo → Outcome Fifo
unfolding register timeout select
poll env s = do
  s1 ← register s
  w ← timeout env.now s1
  s2 ← if must_select s1 then select env w s1 else done s1
  done (record s2 { close_set = [] })

-- The end of a run: the calls of destructors, and the deletion of the runnable.
abbrev pub finish : Env → Fifo → Outcome Fifo
finish env s = do s1 ← call_all env.now env.on_destruct s; done (record s1 { count = s1.count - 1 })

-- The model's calls are taken from its log, which is empty between two runs.
unfoldable pub run_config : Env → Fifo → List Runnable → Outcome Fifo
unfolding run take_steps tell_all call_all
run_config env s [] = done s
run_config env s (r ∷ q) = do
  (steps, m) ← run env.user s.model r
  s1 ← take_steps env steps (record s { configq = q; model = record m { log = [] } })
  s2 ← tell_all env m.log s1
  finish env s2

unfoldable pub run_user : Env → Fifo → List ActionRunnable → Outcome Fifo
unfolding run_action take_steps call_all
run_user env s [] = done s
run_user env s (r ∷ q) = do
  s1 ← take_steps env (run_action env.user s.model r).1 (record s { userq = q })
  finish env s1

unfoldable pub round : Env → Fifo → Outcome Fifo
unfolding poll run_config run_user
round env s = do s1 ← poll env s; s2 ← run_config env s1 s1.configq; run_user env s2 s2.userq

-- The loop, with what it takes from outside in each of its rounds.
unfoldable pub rounds : List Env → Fifo → Outcome Fifo
unfolding round
rounds [] s = done s
rounds (env ∷ envs) s = if s.count == 0 then done s else do s1 ← round env s; rounds envs s1

-- The start of `run`, by a scheduler that has not run: the root automaton.
unfoldable pub start : Env → Option Instance → Outcome Fifo
unfolding init create_root tell_all
start env allocator = do
  (aid, m) ← create_root init.model allocator
  tell_all env m.log (record init { model = record m { log = [] } })
