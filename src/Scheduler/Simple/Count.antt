-- ===== src/Scheduler/Simple/Count.antt =====
-- What holds of the threads and their queues (lib/simple_scheduler.cpp) in every interleaving.
use ioa.Prelude.{
  ℕ, suc, ◌+◌, ◌-◌, ◌%◌, ◌<◌, ◌≡◌, refl, true, List, [], ◌∷◌, ◌++◌, Option, none, some, ◌==◌,
  length, arith, Bool-cases, inl, inr, subst,
}
use ioa.Outcome.{done, >>=-eq-done}
use ioa.Time.{Time}
use ioa.Time
use ioa.Runnable.{ActionRunnable, Runnable, get_action}
use ioa.Scheduler.Timers.Agree.{Agree}
use ioa.Scheduler.Files.{Once}
use ioa.Scheduler.Queue.{length-snoc}
use ioa.Scheduler.Simple.{
  Worker, Simple, nth, update_at, present, push, enter, make, schedule_execq, schedule_sysq,
  schedule_timerq, schedule_readq, schedule_writeq, wakes,
}
use ioa.Scheduler.Simple.Workers.{
  sum, sum-update_at, length-update_at, reals, reals-snoc, strays_in, strays-snoc, runs, ends,
  blocks,
}
use ioa.Scheduler.Simple.Steps.{busy, Active, schedule_all}

abbrev pub strays_of : ℕ → ℕ → Worker → ℕ
strays_of n k w = strays_in n k w.queue

-- The runnables that wait, sentinels apart.
abbrev pub pending : Simple → ℕ
pending s =
    reals s.sysq
    + sum (λ k w. reals w.queue) 0 s.workers
    + length s.timerq
    + length s.readq
    + length s.writeq
    + length s.timers.time_to_action
    + length s.read_actions
    + length s.write_actions

-- The runnables that stand in the execution queue of a wrong thread.
abbrev pub strays : Simple → ℕ
strays s = sum (strays_of (length s.workers)) 0 s.workers

-- The threads of queues that have ended, and those that wait for an empty queue.
abbrev pub ended : Simple → ℕ
ended s = ends s.sys_pc + sum (λ k w. ends w.pc) 0 s.workers

abbrev pub blocked : Simple → ℕ
blocked s = blocks s.sys_pc s.sysq + sum (λ k w. blocks w.pc w.queue) 0 s.workers

-- Every runnable in existence is run by a thread or waits in one place; an execution queue holds only
-- runnables of its own automata; and once a thread has ended there is no runnable, and no thread waits
-- for a queue without a sentinel.
pub record Inv (running : ℕ) (s : Simple) : Type 0 where
  pub agree : Agree s.timers
  pub reads : Once s.read_actions
  pub writes : Once s.write_actions
  pub counted : s.count ≡ running + busy s + pending s
  pub placed : strays s ≡ 0
  pub fresh : s.starting ≡ true → ended s ≡ 0
  pub over : 0 < ended s → s.count ≡ 0
  pub woken : 0 < ended s → blocked s ≡ 0

-- A runnable that exists and is counted as running goes to its queue.
enter-Inv :
    (n : ℕ) (r : ActionRunnable) (s s' : Simple) (o : Option Worker)
    → nth ((get_action r).aid % length s.workers) s.workers ≡ o
    → enter ((get_action r).aid % length s.workers) r s o ≡ done s'
    → Inv (suc n) s
    → Inv n s'
enter-Inv n r s s' none h e v = absurd (ground arith)
enter-Inv n r s s' (some w) h e v = elim (Bool-cases (present r w.queue)) [
  | inl p ↦
      let same : ◌≡◌ {A = Simple} (record s { count = s.count - 1 }) s' = ground arith in
      subst (Inv n) same (record {
        agree = v.agree;
        reads = v.reads;
        writes = v.writes;
        counted = let c = v.counted in omega arith;
        placed = v.placed;
        fresh = v.fresh;
        over = λ k. let z = v.over k in omega arith;
        woken = v.woken;
      })
  | inr p ↦
      let i = (get_action r).aid % length s.workers in
      let ws = update_at i (push (some r)) s.workers in
      let same : ◌≡◌ {A = Simple} (record s { workers = ws }) s' = ground arith in
      let a = sum-update_at (λ k w. runs w.pc) i 0 (push (some r)) w s.workers h in
      let b = sum-update_at (λ k w. reals w.queue) i 0 (push (some r)) w s.workers h in
      let c = sum-update_at (strays_of (length s.workers)) i 0 (push (some r)) w s.workers h in
      let d = sum-update_at (λ k w. ends w.pc) i 0 (push (some r)) w s.workers h in
      let l = length-update_at i (push (some r)) s.workers in
      let m = reals-snoc (some r) w.queue in
      let t = strays-snoc (length s.workers) (0 + i) r w.queue (omega arith) in
      subst (Inv n) same (record {
        agree = v.agree;
        reads = v.reads;
        writes = v.writes;
        counted = let k = v.counted in omega arith;
        placed = rw l (let k = v.placed in omega arith);
        fresh = λ k. let z = v.fresh k in omega arith;
        over = λ k. v.over (omega arith);
        woken = λ k. absurd (let z = v.over (omega arith) in let y = v.counted in omega arith);
      })
]

pub schedule_execq-Inv :
    (n : ℕ) (r : ActionRunnable) (s s' : Simple)
    → schedule_execq r s ≡ done s'
    → Inv (suc n) s
    → Inv n s'
unfolding schedule_execq
schedule_execq-Inv n r s s' e v = enter-Inv n r s s' _ refl e v

pub schedule_all-Inv :
    (n : ℕ) (rs : List ActionRunnable) (s s' : Simple)
    → schedule_all rs s ≡ done s'
    → Inv (length rs + n) s
    → Inv n s'
unfolding schedule_all
schedule_all-Inv n [] s s' e v =
    let same : s ≡ s' = ground arith in subst (Inv n) same (subst (λ z. Inv z s) (omega arith) v)
schedule_all-Inv n (r ∷ rs) s s' e v =
    let (s1, f, g) = >>=-eq-done (schedule_execq r s) _ e in
    let w = schedule_execq-Inv (length rs + n) r s s1 f (subst (λ z. Inv z s) (omega arith) v) in
    schedule_all-Inv n rs s1 s' g w

-- Where code runs, no thread has ended.
pub quiet : (s : Simple) → Active s → Inv 0 s → ended s ≡ 0
quiet s (inl h) v = v.fresh h
quiet s (inr b) v = elim (Bool-cases (ended s == 0)) [
  | inl e ↦ ground arith
  | inr e ↦ absurd (let z = v.over (ground arith) in let c = v.counted in omega arith)
]

pub quiet-Inv :
    (n : ℕ) (s : Simple)
    → Agree s.timers
    → Once s.read_actions
    → Once s.write_actions
    → s.count ≡ n + busy s + pending s
    → strays s ≡ 0
    → ended s ≡ 0
    → Inv n s
quiet-Inv n s a r w c p e = record {
  agree = a;
  reads = r;
  writes = w;
  counted = c;
  placed = p;
  fresh = λ k. e;
  over = λ k. absurd (omega arith);
  woken = λ k. absurd (omega arith);
}

module _ (s : Simple) (active : Active s) (v : Inv 0 s) where
  pub make-Inv : Inv 1 (make s)
  make-Inv =
      quiet-Inv 1 (make s) v.agree v.reads v.writes (let c = v.counted in omega arith) v.placed
        (quiet s active v)

  pub schedule_sysq-Inv : (r : Runnable) → Inv 0 (schedule_sysq r s)
  unfolding schedule_sysq
  schedule_sysq-Inv r =
      quiet-Inv 0 (schedule_sysq r s) v.agree v.reads v.writes
        (let c = v.counted in let l = reals-snoc (some r) s.sysq in omega arith) v.placed
        (quiet s active v)

  pub schedule_timerq-Inv :
      (now : Time) (r : ActionRunnable) (offset : Time) (s' : Simple)
      → schedule_timerq now r offset s ≡ done s'
      → Inv 0 s'
  unfolding schedule_timerq
  schedule_timerq-Inv now r offset s' e =
      let (t, f, g) = >>=-eq-done (Time.add now offset) _ e in
      let s1 : Simple = record (make s) {
        timerq = s.timerq ++ (t, r) ∷ [];
        pipe = s.pipe + wakes s.timerq;
      } in
      let same : s1 ≡ s' = ground arith in
      subst (Inv 0) same (
        quiet-Inv 0 s1 v.agree v.reads v.writes
          (let c = v.counted in let l = length-snoc (t, r) s.timerq in omega arith) v.placed
          (quiet s active v))

  pub schedule_readq-Inv : (r : ActionRunnable) (fd : ℕ) → Inv 0 (schedule_readq r fd s)
  unfolding schedule_readq
  schedule_readq-Inv r fd =
      quiet-Inv 0 (schedule_readq r fd s) v.agree v.reads v.writes
        (let c = v.counted in let l = length-snoc (fd, r) s.readq in omega arith) v.placed
        (quiet s active v)

  pub schedule_writeq-Inv : (r : ActionRunnable) (fd : ℕ) → Inv 0 (schedule_writeq r fd s)
  unfolding schedule_writeq
  schedule_writeq-Inv r fd =
      quiet-Inv 0 (schedule_writeq r fd s) v.agree v.reads v.writes
        (let c = v.counted in let l = length-snoc (fd, r) s.writeq in omega arith) v.placed
        (quiet s active v)

-- A step that leaves the threads and their queues as they are and adds no runnable.
pub still-Inv :
    (n m : ℕ) (s s' : Simple)
    → s'.starting ≡ s.starting
    → s'.sysq ≡ s.sysq
    → s'.sys_pc ≡ s.sys_pc
    → s'.workers ≡ s.workers
    → (s.count ≡ 0 → s'.count ≡ 0)
    → Agree s'.timers
    → Once s'.read_actions
    → Once s'.write_actions
    → s'.count ≡ m + busy s' + pending s'
    → Inv n s
    → Inv m s'
still-Inv n m s s' st sq pc ws less a r w c v = record {
  agree = a;
  reads = r;
  writes = w;
  counted = c;
  placed = rw ws v.placed;
  fresh = rw (st, pc, ws) v.fresh;
  over = rw (pc, ws) (λ k. less (v.over k));
  woken = rw (pc, ws, sq) v.woken;
}
