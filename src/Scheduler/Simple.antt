-- ===== src/Scheduler/Simple.antt =====
-- lib/simple_scheduler.cpp: one thread for the system queue, one for input and output, and some for
-- the actions, each with a queue of its own. A function here is what one thread does under the lock
-- of one queue, or while it alone looks at its own data, but for these: schedule_execq joins the
-- search of a queue and the push after it, thread_keep_going pushes to all queues, and the input and
-- output thread's passes over due timers and ready descriptors schedule all that they take.
pub mod Steps
pub mod Workers
pub mod Count
pub mod Io
pub mod Threads
pub mod Execs
pub mod Reachable
use ioa.Prelude.{
  ℕ, zero, suc, ◌+◌, ◌-◌, ◌%◌, Bool, true, false, ◌||◌, List, [], ◌∷◌, ◌++◌, map, Option, none,
  some, ◌==◌, if◌then◌else◌, length,
}
use ioa.Outcome.{Outcome, fault, done, ◌>>=◌, or_fault}
use ioa.Time.{Time}
use ioa.Time
use ioa.Runnable.{ActionRunnable, get_action, equal, Runnable}
use ioa.Scheduler.Timers.{Timers}
use ioa.Scheduler.Timers

-- Where a thread of a queue stands in its loop: at the test of thread_keep_going, at pop, with a
-- runnable that it runs, or at its end.
pub data Pc : Type 0 where
  testing popping running stopped : Pc

-- thread_context: m_execq with the first of each pair, none for a sentinel, and its thread.
pub record Worker : Type 0 where
  pub queue : List (Option ActionRunnable)
  pub pc : Pc

-- `pipe` is the number of bytes in the wakeup pipe, and `starting` holds until `run` has started the
-- threads. THREAD_COUNT is the length of `workers`.
pub record Simple : Type 0 where
  pub starting : Bool
  pub sysq : List (Option Runnable)
  pub sys_pc : Pc
  pub workers : List Worker
  pub timerq : List (Time × ActionRunnable)
  pub readq : List (ℕ × ActionRunnable)
  pub writeq : List (ℕ × ActionRunnable)
  pub closeq : List ℕ
  pub pipe : ℕ
  pub timers : Timers
  pub read_actions : List (ℕ × ActionRunnable)
  pub write_actions : List (ℕ × ActionRunnable)
  pub count : ℕ

unfoldable pub idle_workers : ℕ → List Worker
idle_workers zero = []
idle_workers (suc n) = record { queue = []; pc = testing } ∷ idle_workers n

-- A scheduler of some threads, before it runs.
unfoldable pub construct : (threads : ℕ) → Simple
unfolding idle_workers Timers.init
construct threads = record {
  starting = true;
  sysq = [];
  sys_pc = testing;
  workers = idle_workers threads;
  timerq = [];
  readq = [];
  writeq = [];
  closeq = [];
  pipe = 0;
  timers = Timers.init;
  read_actions = [];
  write_actions = [];
  count = 0;
}

unfoldable pub nth : ℕ → List Worker → Option Worker
nth i [] = none
nth i (w ∷ ws) = let rest = nth (i - 1) ws in if i == 0 then some w else rest

unfoldable pub update_at : ℕ → (Worker → Worker) → List Worker → List Worker
update_at i f [] = []
update_at i f (w ∷ ws) = let rest = update_at (i - 1) f ws in if i == 0 then f w ∷ ws else w ∷ rest

-- std::find_if with action_runnable_equal, which passes over sentinels.
unfoldable pub present : ActionRunnable → List (Option ActionRunnable) → Bool
unfolding equal
present r [] = false
present r (none ∷ q) = present r q
present r (some x ∷ q) = equal r x || present r q

abbrev pub push : Option ActionRunnable → Worker → Worker
push x w = record w { queue = w.queue ++ x ∷ [] }

abbrev pub set_pc : Pc → Worker → Worker
set_pc pc w = record w { pc = pc }

abbrev pub enter : ℕ → ActionRunnable → Simple → Option Worker → Outcome Simple
enter i r s none = fault
enter i r s (some w) =
    if present r w.queue
    then done (record s { count = s.count - 1 })
    else done (record s { workers = update_at i (push (some r)) s.workers })

-- A runnable that exists goes to the queue of its automaton or is deleted.
unfoldable pub schedule_execq : ActionRunnable → Simple → Outcome Simple
unfolding get_action nth update_at present
schedule_execq r s = let i = (get_action r).aid % length s.workers in enter i r s (nth i s.workers)

unfoldable pub schedule_sysq : Runnable → Simple → Simple
schedule_sysq r s = record s { sysq = s.sysq ++ some r ∷ []; count = s.count + 1 }

abbrev pub make : Simple → Simple
make s = record s { count = s.count + 1 }

-- A push to an empty queue wakes the thread.
abbrev pub wakes {ℓ} : {A : Type ℓ} → List A → ℕ
wakes [] = 1
wakes (x ∷ q) = 0

unfoldable pub schedule_timerq : Time → ActionRunnable → Time → Simple → Outcome Simple
unfolding Time.add
schedule_timerq now r offset s = do
  t ← Time.add now offset
  done (record (make s) { timerq = s.timerq ++ (t, r) ∷ []; pipe = s.pipe + wakes s.timerq })

unfoldable pub schedule_readq : ActionRunnable → ℕ → Simple → Simple
schedule_readq r fd s = record (make s) {
  readq = s.readq ++ (fd, r) ∷ [];
  pipe = s.pipe + wakes s.readq;
}

unfoldable pub schedule_writeq : ActionRunnable → ℕ → Simple → Simple
schedule_writeq r fd s = record (make s) {
  writeq = s.writeq ++ (fd, r) ∷ [];
  pipe = s.pipe + wakes s.writeq;
}

unfoldable pub close : ℕ → Simple → Simple
close fd s = record s { closeq = s.closeq ++ fd ∷ []; pipe = s.pipe + wakes s.closeq }

-- What thread_keep_going does where it answers false: a sentinel for each thread of a queue.
unfoldable pub push_sentinels : Simple → Simple
push_sentinels s = record s {
  sysq = s.sysq ++ none ∷ [];
  workers = map (push none) s.workers;
  pipe = s.pipe + 1;
}

-- The test of the loops, with keep_going.
unfoldable pub thread_keep_going : Simple → Bool × Simple
unfolding push_sentinels
thread_keep_going s = if s.count == 0 then (false, push_sentinels s) else (true, s)

abbrev pub next_pc : Bool → Pc
next_pc keep = if keep then popping else stopped

-- process_sysq: the test, and pop, whose result is `x`.
unfoldable pub test_sys : Simple → Simple
unfolding thread_keep_going
test_sys s = let (keep, s1) = thread_keep_going s in record s1 { sys_pc = next_pc keep }

abbrev pub pc_after {ℓ} : {A : Type ℓ} → Option A → Pc
pc_after none = testing
pc_after (some r) = running

unfoldable pub pop_sys : Option Runnable → List (Option Runnable) → Simple → Simple
pop_sys x q s = record s { sysq = q; sys_pc = pc_after x }

-- The deletion of the runnable once it has run.
unfoldable pub end_sys : Simple → Simple
end_sys s = record s { sys_pc = testing; count = s.count - 1 }

-- process_execq of the thread `i`.
unfoldable pub test_exec : ℕ → Simple → Simple
unfolding thread_keep_going update_at
test_exec i s =
    let (keep, s1) = thread_keep_going s in
    record s1 { workers = update_at i (set_pc (next_pc keep)) s1.workers }

unfoldable pub pop_exec : ℕ → Option ActionRunnable → List (Option ActionRunnable) → Simple → Simple
unfolding update_at
pop_exec i x q s = record s {
  workers = update_at i (λ w. record { queue = q; pc = pc_after x }) s.workers;
}

unfoldable pub end_exec : ℕ → Simple → Simple
unfolding update_at
end_exec i s = record s { workers = update_at i (set_pc testing) s.workers; count = s.count - 1 }
