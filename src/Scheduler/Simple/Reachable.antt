-- ===== src/Scheduler/Simple/Reachable.antt =====
-- Every interleaving of the threads (lib/simple_scheduler.cpp).
use ioa.Prelude.{ℕ, zero, suc, ◌+◌, ◌≡◌, refl, false, [], ◌==◌, length, arith, Bool-cases, inl, inr}
use ioa.Scheduler.Timers.{Timers}
use ioa.Scheduler.Timers
use ioa.Scheduler.Timers.Agree.{init-Agree}
use ioa.Scheduler.Simple.{
  testing, Worker, Simple, construct, idle_workers, make, close, thread_keep_going,
}
use ioa.Scheduler.Simple.Workers.{sum, reals, runs, ends}
use ioa.Scheduler.Simple.Steps.{Reaches, io_drain}
use ioa.Scheduler.Simple.Count.{
  Inv, strays_of, schedule_execq-Inv, make-Inv, schedule_sysq-Inv, schedule_timerq-Inv,
  schedule_readq-Inv, schedule_writeq-Inv, still-Inv,
}
use ioa.Scheduler.Simple.Io.{
  io_timers-Inv, io_reads-Inv, io_writes-Inv, io_close-Inv, io_due-Inv, io_ready_reads-Inv,
  io_ready_writes-Inv,
}
use ioa.Scheduler.Simple.Steps.{
  constructed, queues, schedules, schedules_after, schedules_read, schedules_write, closes, starts,
  tests_sys, pops_sys, ends_sys, tests_exec, pops_exec, ends_exec, tests_io, registers_timers,
  registers_reads, registers_writes, closes_all, takes_due, takes_reads, takes_writes, drains,
}
use ioa.Scheduler.Simple.Threads.{push_sentinels-Inv, test_sys-Inv, pop_sys-Inv, end_sys-Inv}
use ioa.Scheduler.Simple.Execs.{test_exec-Inv, pop_exec-Inv, end_exec-Inv}
use ioa.FinMap.{count_keys}

idle_zero :
    (μ : ℕ → Worker → ℕ) (k n : ℕ)
    → ((j : ℕ) → μ j (record { queue = []; pc = testing }) ≡ 0)
    → sum μ k (idle_workers n) ≡ 0
unfolding idle_workers
idle_zero μ k zero h = refl
idle_zero μ k (suc n) h = let a = h k in let b = idle_zero μ (k + 1) n h in omega arith

construct-Inv : (threads : ℕ) → Inv 0 (construct threads)
unfolding construct Timers.init count_keys
construct-Inv threads =
    let n = length (idle_workers threads) in
    let a = idle_zero (λ k w. runs w.pc) 0 threads (λ k. refl) in
    let b = idle_zero (λ k w. reals w.queue) 0 threads (λ k. refl) in
    let c = idle_zero (strays_of n) 0 threads (λ k. refl) in
    let d = idle_zero (λ k w. ends w.pc) 0 threads (λ k. refl) in
    record {
      agree = init-Agree;
      reads = λ k. omega arith;
      writes = λ k. omega arith;
      counted = omega arith;
      placed = c;
      fresh = λ h. omega arith;
      over = λ h. refl;
      woken = λ h. absurd (omega arith);
    }

start-Inv : (s : Simple) → Inv 0 s → Inv 0 (record s { starting = false })
start-Inv s v = record {
  agree = v.agree;
  reads = v.reads;
  writes = v.writes;
  counted = v.counted;
  placed = v.placed;
  fresh = λ h. absurd (ground arith);
  over = v.over;
  woken = v.woken;
}

test_io-Inv : (s : Simple) → Inv 0 s → Inv 0 (thread_keep_going s).1
unfolding thread_keep_going
test_io-Inv s v = elim (Bool-cases (s.count == 0)) [
  | inl e ↦ rw e (push_sentinels-Inv s (ground arith) v)
  | inr e ↦ rw e v
]

-- In every interleaving of the threads, from the construction on: each runnable in existence is run by
-- one thread or waits in one place, so that the number that the loops test is right; an execution queue
-- has only runnables of the automata of its thread; and once one thread has found no runnable and
-- ended, there is none any more, and no other thread waits at its queue without a sentinel to wake it.
pub Reaches-Inv : {threads : ℕ} {s : Simple} → Reaches threads s → Inv 0 s
unfolding close io_drain
Reaches-Inv {threads} constructed = construct-Inv threads
Reaches-Inv (queues {s} r p a) = schedule_sysq-Inv s a (Reaches-Inv p) r
Reaches-Inv (schedules {s} {s'} r p a e) =
    schedule_execq-Inv 0 r (make s) s' e (make-Inv s a (Reaches-Inv p))
Reaches-Inv (schedules_after {s} {s'} now r offset p a e) =
    schedule_timerq-Inv s a (Reaches-Inv p) now r offset s' e
Reaches-Inv (schedules_read {s} r fd p a) = schedule_readq-Inv s a (Reaches-Inv p) r fd
Reaches-Inv (schedules_write {s} r fd p a) = schedule_writeq-Inv s a (Reaches-Inv p) r fd
Reaches-Inv (closes {s} fd p) =
    let v = Reaches-Inv p in
    still-Inv 0 0 s _ refl refl refl refl (λ z. z) v.agree v.reads v.writes v.counted v
Reaches-Inv (starts {s} p) = start-Inv s (Reaches-Inv p)
Reaches-Inv (tests_sys {s} p st at) = test_sys-Inv s st at (Reaches-Inv p)
Reaches-Inv (pops_sys {s} x q p at front) = pop_sys-Inv x q s at front (Reaches-Inv p)
Reaches-Inv (ends_sys {s} p at) = end_sys-Inv s at (Reaches-Inv p)
Reaches-Inv (tests_exec {s} i w p st h at) = test_exec-Inv i w s st h at (Reaches-Inv p)
Reaches-Inv (pops_exec {s} i w x q p h at front) = pop_exec-Inv i w x q s h at front (Reaches-Inv p)
Reaches-Inv (ends_exec {s} i w p h at) = end_exec-Inv i w s h at (Reaches-Inv p)
Reaches-Inv (tests_io {s} p) = test_io-Inv s (Reaches-Inv p)
Reaches-Inv (registers_timers {s} {s'} p e) = io_timers-Inv s s' e (Reaches-Inv p)
Reaches-Inv (registers_reads {s} p) = io_reads-Inv s (Reaches-Inv p)
Reaches-Inv (registers_writes {s} p) = io_writes-Inv s (Reaches-Inv p)
Reaches-Inv (closes_all {s} p) = io_close-Inv s.closeq s (Reaches-Inv p)
Reaches-Inv (takes_due {s} {s'} now p e) = io_due-Inv now s s' e (Reaches-Inv p)
Reaches-Inv (takes_reads {s} {s'} ready p e) = io_ready_reads-Inv ready s s' e (Reaches-Inv p)
Reaches-Inv (takes_writes {s} {s'} ready p e) = io_ready_writes-Inv ready s s' e (Reaches-Inv p)
Reaches-Inv (drains {s} p) =
    let v = Reaches-Inv p in
    still-Inv 0 0 s _ refl refl refl refl (λ z. z) v.agree v.reads v.writes v.counted v
