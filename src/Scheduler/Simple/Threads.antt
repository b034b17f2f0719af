-- ===== src/Scheduler/Simple/Threads.antt =====
-- The thread of the system queue (process_sysq of lib/simple_scheduler.cpp), and the
-- sentinels.
use ioa.Prelude.{
  ◌≡◌, refl, false, List, ◌∷◌, Option, none, some, ◌==◌, length, arith, Bool-cases, inl, inr, ap,
  ◌∙◌,
}
use ioa.Runnable.{Runnable}
use ioa.Scheduler.Simple.{
  testing, popping, running, Simple, push, push_sentinels, thread_keep_going, pc_after, test_sys,
  pop_sys, end_sys,
}
use ioa.Scheduler.Simple.Workers.{
  sum, sum-map, sum_zero, length-map, reals, reals-snoc, strays-sentinel, runs, ends, blocks,
  blocks-snoc,
}
use ioa.Scheduler.Simple.Count.{Inv, strays, strays_of}

-- The sentinels change no sum but that of the threads that wait for an empty queue.
pub record Wakes (s s0 : Simple) : Type 0 where
  pub busy_same : sum (λ k w. runs w.pc) 0 s0.workers ≡ sum (λ k w. runs w.pc) 0 s.workers
  pub reals_same : sum (λ k w. reals w.queue) 0 s0.workers ≡ sum (λ k w. reals w.queue) 0 s.workers
  pub ends_same : sum (λ k w. ends w.pc) 0 s0.workers ≡ sum (λ k w. ends w.pc) 0 s.workers
  pub placed_same : strays s0 ≡ strays s
  pub none_blocked : sum (λ k w. blocks w.pc w.queue) 0 s0.workers ≡ 0
  pub sys_reals : reals s0.sysq ≡ reals s.sysq
  pub sys_woken : blocks s0.sys_pc s0.sysq ≡ 0

pub push_sentinels-Wakes : (s : Simple) → Wakes s (push_sentinels s)
unfolding push_sentinels
push_sentinels-Wakes s = record {
  busy_same = sum-map (λ k w. runs w.pc) (λ k w. runs w.pc) (push none) 0 s.workers (λ k w. refl);
  reals_same =
      sum-map (λ k w. reals w.queue) (λ k w. reals w.queue) (push none) 0 s.workers
        (λ k w. let r = reals-snoc none w.queue in omega arith);
  ends_same = sum-map (λ k w. ends w.pc) (λ k w. ends w.pc) (push none) 0 s.workers (λ k w. refl);
  placed_same = rw (length-map (push none) s.workers) (
      sum-map (strays_of (length s.workers)) (strays_of (length s.workers)) (push none) 0 s.workers
        (λ k w. strays-sentinel (length s.workers) k w.queue));
  none_blocked =
      sum-map (λ k w. blocks w.pc w.queue) (λ k w. 0) (push none) 0 s.workers
        (λ k w. blocks-snoc w.pc none w.queue)
      ∙ sum_zero (λ k w. 0) 0 s.workers (λ k w. refl);
  sys_reals = let r = reals-snoc none s.sysq in omega arith;
  sys_woken = blocks-snoc s.sys_pc none s.sysq;
}

pub push_sentinels-Inv : (s : Simple) → s.count ≡ 0 → Inv 0 s → Inv 0 (push_sentinels s)
unfolding push_sentinels
push_sentinels-Inv s z v =
    let k = push_sentinels-Wakes s in
    record {
      agree = v.agree;
      reads = v.reads;
      writes = v.writes;
      counted =
          let c = v.counted in
          let a = k.busy_same in let b = k.reals_same in let d = k.sys_reals in omega arith;
      placed = let c = v.placed in let a = k.placed_same in omega arith;
      fresh = λ h. let c = v.fresh h in let a = k.ends_same in omega arith;
      over = λ h. z;
      woken = λ h. let a = k.none_blocked in let b = k.sys_woken in omega arith;
    }

pub test_sys-Inv :
    (s : Simple) → s.starting ≡ false → s.sys_pc ≡ testing → Inv 0 s → Inv 0 (test_sys s)
unfolding test_sys thread_keep_going
test_sys-Inv s started at v =
    let pr = ap runs at in
    let pe = ap ends at in
    elim (Bool-cases (s.count == 0)) [
      | inl e ↦
          let w = push_sentinels-Inv s (ground arith) v in
          let k = push_sentinels-Wakes s in
          rw e (record {
            agree = w.agree;
            reads = w.reads;
            writes = w.writes;
            counted = unfold push_sentinels in let c = w.counted in omega arith;
            placed = w.placed;
            fresh = λ h. absurd (unfold push_sentinels in ground arith);
            over = λ h. unfold push_sentinels in ground arith;
            woken = λ h. let a = k.none_blocked in omega arith;
          })
      | inr e ↦ rw e (record {
        agree = v.agree;
        reads = v.reads;
        writes = v.writes;
        counted = let c = v.counted in omega arith;
        placed = v.placed;
        fresh = λ h. let c = v.fresh h in omega arith;
        over = λ h. absurd (let c = v.over (omega arith) in ground arith);
        woken = λ h. absurd (let c = v.over (omega arith) in ground arith);
      })
    ]

pub pop_sys-Inv :
    (x : Option Runnable) (q : List (Option Runnable)) (s : Simple)
    → s.sys_pc ≡ popping
    → s.sysq ≡ x ∷ q
    → Inv 0 s
    → Inv 0 (pop_sys x q s)
unfolding pop_sys
pop_sys-Inv x q s at front v = go x front
  where
    go : (x : Option Runnable) → s.sysq ≡ x ∷ q → Inv 0 (record s { sysq = q; sys_pc = pc_after x })
    go none front =
        let pr = ap runs at in
        let pe = ap ends at in
        let r = ap reals front in
        let b : blocks s.sys_pc s.sysq ≡ 0 = rw (at, front) refl in
        record {
          agree = v.agree;
          reads = v.reads;
          writes = v.writes;
          counted = let c = v.counted in omega arith;
          placed = v.placed;
          fresh = λ h. let c = v.fresh h in omega arith;
          over = λ h. v.over (omega arith);
          woken = λ h. let c = v.woken (omega arith) in omega arith;
        }
    go (some y) front =
        let pr = ap runs at in
        let pe = ap ends at in
        let r = ap reals front in
        let b : blocks s.sys_pc s.sysq ≡ 0 = rw (at, front) refl in
        record {
          agree = v.agree;
          reads = v.reads;
          writes = v.writes;
          counted = let c = v.counted in omega arith;
          placed = v.placed;
          fresh = λ h. let c = v.fresh h in omega arith;
          over = λ h. v.over (omega arith);
          woken = λ h. let c = v.woken (omega arith) in omega arith;
        }

pub end_sys-Inv : (s : Simple) → s.sys_pc ≡ running → Inv 0 s → Inv 0 (end_sys s)
unfolding end_sys
end_sys-Inv s at v =
    let pr = ap runs at in
    let pe = ap ends at in
    record {
      agree = v.agree;
      reads = v.reads;
      writes = v.writes;
      counted = let c = v.counted in omega arith;
      placed = v.placed;
      fresh = λ h. let c = v.fresh h in omega arith;
      over = λ h. let c = v.over (omega arith) in omega arith;
      woken = λ h. let c = v.woken (omega arith) in omega arith;
    }
