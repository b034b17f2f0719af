-- ===== src/Scheduler/Simple/Execs.antt =====
-- The threads of the execution queues (process_execq of lib/simple_scheduler.cpp).
use ioa.Prelude.{
  ℕ, ◌+◌, ◌≤◌, ◌≡◌, refl, false, List, ◌∷◌, map, Option, none, some, ◌==◌, length, arith,
  Bool-cases, inl, inr, ap, ◌∙◌,
}
use ioa.Runnable.{ActionRunnable}
use ioa.Scheduler.Simple.{
  testing, popping, running, stopped, Worker, Simple, nth, update_at, push, set_pc, push_sentinels,
  thread_keep_going, pc_after, test_exec, pop_exec, end_exec,
}
use ioa.Scheduler.Simple.Workers.{
  sum, sum-update_at, length-update_at, nth-map, reals, strays_in, runs, ends, blocks,
}
use ioa.Scheduler.Simple.Count.{Inv, strays_of}
use ioa.Scheduler.Simple.Threads.{push_sentinels-Wakes, push_sentinels-Inv}

-- The sums after a change of one thread.
record Moves (i : ℕ) (f : Worker → Worker) (w : Worker) (ws : List Worker) : Type 0 where
  busy_sum :
      sum (λ k w. runs w.pc) 0 (update_at i f ws) + runs w.pc
      ≡ sum (λ k w. runs w.pc) 0 ws + runs (f w).pc
  reals_sum :
      sum (λ k w. reals w.queue) 0 (update_at i f ws) + reals w.queue
      ≡ sum (λ k w. reals w.queue) 0 ws + reals (f w).queue
  ends_sum :
      sum (λ k w. ends w.pc) 0 (update_at i f ws) + ends w.pc
      ≡ sum (λ k w. ends w.pc) 0 ws + ends (f w).pc
  blocks_sum :
      sum (λ k w. blocks w.pc w.queue) 0 (update_at i f ws) + blocks w.pc w.queue
      ≡ sum (λ k w. blocks w.pc w.queue) 0 ws + blocks (f w).pc (f w).queue
  strays_sum :
      sum (strays_of (length (update_at i f ws))) 0 (update_at i f ws)
        + strays_in (length ws) (0 + i) w.queue
      ≡ sum (strays_of (length ws)) 0 ws + strays_in (length ws) (0 + i) (f w).queue

update_at-Moves :
    (i : ℕ) (f : Worker → Worker) (w : Worker) (ws : List Worker)
    → nth i ws ≡ some w
    → Moves i f w ws
update_at-Moves i f w ws h = record {
  busy_sum = sum-update_at (λ k w. runs w.pc) i 0 f w ws h;
  reals_sum = sum-update_at (λ k w. reals w.queue) i 0 f w ws h;
  ends_sum = sum-update_at (λ k w. ends w.pc) i 0 f w ws h;
  blocks_sum = sum-update_at (λ k w. blocks w.pc w.queue) i 0 f w ws h;
  strays_sum = rw (length-update_at i f ws) (sum-update_at (strays_of (length ws)) i 0 f w ws h);
}

pub test_exec-Inv :
    (i : ℕ) (w : Worker) (s : Simple)
    → s.starting ≡ false
    → nth i s.workers ≡ some w
    → w.pc ≡ testing
    → Inv 0 s
    → Inv 0 (test_exec i s)
unfolding test_exec thread_keep_going
test_exec-Inv i w s started h at v =
    let pr = ap runs at in
    let pe = ap ends at in
    elim (Bool-cases (s.count == 0)) [
      | inl e ↦
          let z : s.count ≡ 0 = ground arith in
          let u = push_sentinels-Inv s z v in
          let k = push_sentinels-Wakes s in
          rw e (
            unfold push_sentinels in
            let m =
              update_at-Moves i (set_pc stopped) (push none w) (map (push none) s.workers)
                (nth-map i (push none) w s.workers h) in
            record {
              agree = u.agree;
              reads = u.reads;
              writes = u.writes;
              counted =
                  let c = u.counted in let a = m.busy_sum in let b = m.reals_sum in omega arith;
              placed = let c = u.placed in let a = m.strays_sum in omega arith;
              fresh = λ x. absurd (ground arith);
              over = λ x. z;
              woken = λ x.
                  let a = k.none_blocked in
                  let b = k.sys_woken in let c = m.blocks_sum in omega arith;
            })
      | inr e ↦
          let m = update_at-Moves i (set_pc popping) w s.workers h in
          let g = m.ends_sum in
          rw e (record {
            agree = v.agree;
            reads = v.reads;
            writes = v.writes;
            counted = let c = v.counted in let a = m.busy_sum in let b = m.reals_sum in omega arith;
            placed = let c = v.placed in let a = m.strays_sum in omega arith;
            fresh = λ x. let c = v.fresh x in omega arith;
            over = λ x. absurd (let c = v.over (omega arith) in ground arith);
            woken = λ x. absurd (let c = v.over (omega arith) in ground arith);
          })
    ]

fewer_strays :
    (n k : ℕ) (x : Option ActionRunnable) (q : List (Option ActionRunnable))
    → strays_in n k q ≤ strays_in n k (x ∷ q)
fewer_strays n k none q = omega arith
fewer_strays n k (some r) q = omega arith

pub pop_exec-Inv :
    (i : ℕ) (w : Worker) (x : Option ActionRunnable) (q : List (Option ActionRunnable)) (s : Simple)
    → nth i s.workers ≡ some w
    → w.pc ≡ popping
    → w.queue ≡ x ∷ q
    → Inv 0 s
    → Inv 0 (pop_exec i x q s)
unfolding pop_exec
pop_exec-Inv i w x q s h at front v =
    let m = update_at-Moves i (λ w. record { queue = q; pc = pc_after x }) w s.workers h in
    let pr = ap runs at in
    let pe = ap ends at in
    let b : blocks w.pc w.queue ≡ 0 = rw (at, front) refl in
    let n : ends (pc_after x) ≡ 0 = after-ends x in
    let o : blocks (pc_after x) q ≡ 0 = after-blocks x in
    let l : reals w.queue ≡ runs (pc_after x) + reals q = ap reals front ∙ after-runs x in
    let t = fewer_strays (length s.workers) (0 + i) x q in
    let f = ap (strays_in (length s.workers) (0 + i)) front in
    let y = m.ends_sum in
    record {
      agree = v.agree;
      reads = v.reads;
      writes = v.writes;
      counted = let c = v.counted in let a = m.busy_sum in let d = m.reals_sum in omega arith;
      placed = let c = v.placed in let a = m.strays_sum in omega arith;
      fresh = λ z. let c = v.fresh z in omega arith;
      over = λ z. v.over (omega arith);
      woken = λ z. let c = v.woken (omega arith) in let d = m.blocks_sum in omega arith;
    }
  where
    after-ends : (x : Option ActionRunnable) → ends (pc_after x) ≡ 0
    after-ends none = refl
    after-ends (some r) = refl

    after-blocks : (x : Option ActionRunnable) → blocks (pc_after x) q ≡ 0
    after-blocks none = refl
    after-blocks (some r) = refl

    after-runs : (x : Option ActionRunnable) → reals (x ∷ q) ≡ runs (pc_after x) + reals q
    after-runs none = omega arith
    after-runs (some r) = omega arith

pub end_exec-Inv :
    (i : ℕ) (w : Worker) (s : Simple)
    → nth i s.workers ≡ some w
    → w.pc ≡ running
    → Inv 0 s
    → Inv 0 (end_exec i s)
unfolding end_exec
end_exec-Inv i w s h at v =
    let m = update_at-Moves i (set_pc testing) w s.workers h in
    let pr = ap runs at in
    let pe = ap ends at in
    let y = m.ends_sum in
    record {
      agree = v.agree;
      reads = v.reads;
      writes = v.writes;
      counted = let c = v.counted in let a = m.busy_sum in let d = m.reals_sum in omega arith;
      placed = let c = v.placed in let a = m.strays_sum in omega arith;
      fresh = λ z. let c = v.fresh z in omega arith;
      over = λ z. let c = v.over (omega arith) in omega arith;
      woken = λ z. let c = v.woken (omega arith) in let d = m.blocks_sum in omega arith;
    }
