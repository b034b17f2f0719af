-- ===== src/Scheduler/Simple/Steps.antt =====
-- The loop of the input and output thread (process_ioq of lib/simple_scheduler.cpp), and every
-- interleaving of what the threads do.
use ioa.Prelude.{
  ℕ, ◌+◌, ◌-◌, ◌<◌, ◌≡◌, ◌⊎◌, Bool, true, false, List, [], ◌∷◌, Option, some, is_some,
}
use ioa.FinMap
use ioa.Outcome.{Outcome, done, ◌>>=◌}
use ioa.Time.{Time}
use ioa.Runnable.{ActionRunnable, Runnable}
use ioa.Scheduler.Timers.{Timers}
use ioa.Scheduler.Timers
use ioa.Scheduler.Files
use ioa.Scheduler.Simple.{
  testing, popping, running, Worker, Simple, construct, nth, make, schedule_execq, schedule_sysq,
  schedule_timerq, schedule_readq, schedule_writeq, close, thread_keep_going, test_sys, pop_sys,
  end_sys, test_exec, pop_exec, end_exec,
}
use ioa.Scheduler.Simple.Workers.{sum, runs}

-- The three loops over the registrations.
unfoldable pub io_timers : Simple → Outcome Simple
unfolding Timers.register_all
io_timers s = do
  (timers, n) ← Timers.register_all s.timerq s.timers
  done (record s { timerq = []; timers = timers; count = s.count - n })

unfoldable pub io_reads : Simple → Simple
unfolding Files.register
io_reads s =
    let (reads, n) = Files.register s.readq s.read_actions in
    record s { readq = []; read_actions = reads; count = s.count - n }

unfoldable pub io_writes : Simple → Simple
unfolding Files.register
io_writes s =
    let (writes, n) = Files.register s.writeq s.write_actions in
    record s { writeq = []; write_actions = writes; count = s.count - n }

-- The loop over m_closeq, less the call of ::close.
unfoldable pub io_close_one : ℕ → Simple → Simple
unfolding FinMap.lookup FinMap.erase
io_close_one fd s = record s {
  read_actions = FinMap.erase fd s.read_actions;
  write_actions = FinMap.erase fd s.write_actions;
  count =
      s.count
      - Files.one (is_some (FinMap.lookup fd s.read_actions))
      - Files.one (is_some (FinMap.lookup fd s.write_actions));
}

unfoldable pub io_close : List ℕ → Simple → Simple
unfolding io_close_one
io_close [] s = record s { closeq = [] }
io_close (fd ∷ fds) s = io_close fds (io_close_one fd s)

unfoldable pub schedule_all : List ActionRunnable → Simple → Outcome Simple
unfolding schedule_execq
schedule_all [] s = done s
schedule_all (r ∷ rs) s = do s1 ← schedule_execq r s; schedule_all rs s1

unfoldable pub io_due : Time → Simple → Outcome Simple
unfolding Timers.process schedule_all
io_due now s =
    let (due, timers) = Timers.process now s.timers in
    schedule_all due (record s { timers = timers })

-- The loops over the ready descriptors, in one step: the code schedules each runnable before it takes
-- it out of the map, which only this thread sees. What is ready is any predicate, so that a step may
-- be about one descriptor.
unfoldable pub io_ready_reads : (ℕ → Bool) → Simple → Outcome Simple
unfolding Files.take_ready schedule_all
io_ready_reads ready s =
    let (rs, rest) = Files.take_ready ready s.read_actions in
    schedule_all rs (record s { read_actions = rest })

unfoldable pub io_ready_writes : (ℕ → Bool) → Simple → Outcome Simple
unfolding Files.take_ready schedule_all
io_ready_writes ready s =
    let (rs, rest) = Files.take_ready ready s.write_actions in
    schedule_all rs (record s { write_actions = rest })

-- A read of the pipe takes three bytes at most.
unfoldable pub io_drain : Simple → Simple
io_drain s = record s { pipe = s.pipe - 3 }

-- How many threads of queues run a runnable.
abbrev pub busy : Simple → ℕ
busy s = runs s.sys_pc + sum (λ k w. runs w.pc) 0 s.workers

-- Code of automata or of the model runs, and may call the scheduler.
abbrev pub Active : Simple → Type 0
Active s = (s.starting ≡ true) ⊎ (0 < busy s)

-- Every state that the threads lead to, in any order of their steps. The steps of the input and output
-- thread may come in any order too.
pub data Reaches (threads : ℕ) : Simple → Type 0 where
  constructed : Reaches threads (construct threads)
  queues :
      {s : Simple} (r : Runnable)
      → Reaches threads s
      → Active s
      → Reaches threads (schedule_sysq r s)
  schedules :
      {s s' : Simple} (r : ActionRunnable)
      → Reaches threads s
      → Active s
      → schedule_execq r (make s) ≡ done s'
      → Reaches threads s'
  schedules_after :
      {s s' : Simple} (now : Time) (r : ActionRunnable) (offset : Time)
      → Reaches threads s
      → Active s
      → schedule_timerq now r offset s ≡ done s'
      → Reaches threads s'
  schedules_read :
      {s : Simple} (r : ActionRunnable) (fd : ℕ)
      → Reaches threads s
      → Active s
      → Reaches threads (schedule_readq r fd s)
  schedules_write :
      {s : Simple} (r : ActionRunnable) (fd : ℕ)
      → Reaches threads s
      → Active s
      → Reaches threads (schedule_writeq r fd s)
  closes : {s : Simple} (fd : ℕ) → Reaches threads s → Reaches threads (close fd s)
  starts : {s : Simple} → Reaches threads s → Reaches threads (record s { starting = false })
  tests_sys :
      {s : Simple}
      → Reaches threads s
      → s.starting ≡ false
      → s.sys_pc ≡ testing
      → Reaches threads (test_sys s)
  pops_sys :
      {s : Simple} (x : Option Runnable) (q : List (Option Runnable))
      → Reaches threads s
      → s.sys_pc ≡ popping
      → s.sysq ≡ x ∷ q
      → Reaches threads (pop_sys x q s)
  ends_sys : {s : Simple} → Reaches threads s → s.sys_pc ≡ running → Reaches threads (end_sys s)
  tests_exec :
      {s : Simple} (i : ℕ) (w : Worker)
      → Reaches threads s
      → s.starting ≡ false
      → nth i s.workers ≡ some w
      → w.pc ≡ testing
      → Reaches threads (test_exec i s)
  pops_exec :
      {s : Simple} (i : ℕ) (w : Worker) (x : Option ActionRunnable)
      (q : List (Option ActionRunnable))
      → Reaches threads s
      → nth i s.workers ≡ some w
      → w.pc ≡ popping
      → w.queue ≡ x ∷ q
      → Reaches threads (pop_exec i x q s)
  ends_exec :
      {s : Simple} (i : ℕ) (w : Worker)
      → Reaches threads s
      → nth i s.workers ≡ some w
      → w.pc ≡ running
      → Reaches threads (end_exec i s)
  tests_io : {s : Simple} → Reaches threads s → Reaches threads (thread_keep_going s).1
  registers_timers :
      {s s' : Simple} → Reaches threads s → io_timers s ≡ done s' → Reaches threads s'
  registers_reads : {s : Simple} → Reaches threads s → Reaches threads (io_reads s)
  registers_writes : {s : Simple} → Reaches threads s → Reaches threads (io_writes s)
  closes_all : {s : Simple} → Reaches threads s → Reaches threads (io_close s.closeq s)
  takes_due :
      {s s' : Simple} (now : Time) → Reaches threads s → io_due now s ≡ done s' → Reaches threads s'
  takes_reads :
      {s s' : Simple} (ready : ℕ → Bool)
      → Reaches threads s
      → io_ready_reads ready s ≡ done s'
      → Reaches threads s'
  takes_writes :
      {s s' : Simple} (ready : ℕ → Bool)
      → Reaches threads s
      → io_ready_writes ready s ≡ done s'
      → Reaches threads s'
  drains : {s : Simple} → Reaches threads s → Reaches threads (io_drain s)
