-- ===== src/Scheduler/Fifo/Parts.antt =====
-- The parts of a poll (lib/global_fifo_scheduler.cpp), one by one.
use ioa.Prelude.{
  ℕ, ◌+◌, ◌≡◌, refl, List, [], ◌∷◌, ◌++◌, arith, length, ltb, Bool-cases, inl, inr, map, sym, ap,
  ◌∙◌,
}
use ioa.Time.{Time}
use ioa.Runnable.{ActionRunnable}
use ioa.Scheduler.Timers.{Timers}
use ioa.Scheduler.Timers
use ioa.Scheduler.Timers.Due.{process-Takes}
use ioa.Scheduler.Files
use ioa.Scheduler.Files.{
  Once, one, register-Registered, erase-Once, length-erase-Once, take_ready-Takes,
}
use ioa.Scheduler.Queue.{Extends-refl, enqueue_all-Queues, append_nil, append_assoc}
use ioa.Scheduler.Calls.{Selected}
use ioa.Scheduler.Fifo.{Fifo}
use ioa.Scheduler.Fifo.Loop.{
  close_one, close_all, ready_all, process_timers, process_reads, process_writes,
}
use ioa.Scheduler.Fifo.Counts.{Inv, Grows, Grows-refl, Grows-trans}

pub ready_all-Grows :
    (rs : List ActionRunnable) (s0 s : Fifo)
    → s.configq ≡ s0.configq
    → s.userq ≡ s0.userq
    → ((running : ℕ) → Inv running s0 → Inv (length rs + running) s)
    → Grows s0 (ready_all rs s)
unfolding ready_all
ready_all-Grows rs s0 s c u keep =
    let q = enqueue_all-Queues rs s.userq in
    record {
      inv = λ v.
          let w = keep _ v in
          record {
            agree = w.agree;
            reads = w.reads;
            writes = w.writes;
            distinct = q.distinct w.distinct;
            counted = let k = w.counted in let l = q.size in omega arith;
          };
      configs = rw c (Extends-refl s0.configq);
      users = rw (sym u) q.extends;
    }

pub length-append_map :
    (entries rest : List (Time × ActionRunnable))
    → length (entries ++ rest) ≡ length (map (λ e. e.1) entries) + length rest
length-append_map [] rest = omega arith
length-append_map (e ∷ es) rest = omega (arith, length-append_map es rest)

pub process_timers-Grows : (now : Time) (s : Fifo) → Grows s (process_timers now s)
unfolding process_timers
process_timers-Grows now s =
    let due = (Timers.process now s.timers).0 in
    ready_all-Grows due s (record s { timers = (Timers.process now s.timers).1 }) refl refl
      (λ n v.
        let t = process-Takes now s.timers v.agree in
        let (entries, split, same, early) = t.moved in
        record {
          agree = t.agree;
          reads = v.reads;
          writes = v.writes;
          distinct = v.distinct;
          counted =
              let c = v.counted in
              let l = length-append_map entries (Timers.process now s.timers).1.time_to_action in
              let a = ap length split in let b = ap length same in omega arith;
        })

pub process_reads-Grows : (sel : Selected) (s : Fifo) → Grows s (process_reads sel s)
unfolding process_reads
process_reads-Grows sel s = elim (Bool-cases (ltb 0 sel.result)) [
  | inr e ↦ rw e (Grows-refl s)
  | inl e ↦
      let t = take_ready-Takes sel.readable s.read_actions in
      rw e (
        ready_all-Grows (Files.take_ready sel.readable s.read_actions).0 s
          (record s { read_actions = (Files.take_ready sel.readable s.read_actions).1 }) refl refl
          (λ n v. record {
            agree = v.agree;
            reads = t.once v.reads;
            writes = v.writes;
            distinct = v.distinct;
            counted = let c = v.counted in let l = t.size in omega arith;
          }))
]

pub process_writes-Grows : (sel : Selected) (s : Fifo) → Grows s (process_writes sel s)
unfolding process_writes
process_writes-Grows sel s = elim (Bool-cases (ltb 0 sel.result)) [
  | inr e ↦ rw e (Grows-refl s)
  | inl e ↦
      let t = take_ready-Takes sel.writable s.write_actions in
      rw e (
        ready_all-Grows (Files.take_ready sel.writable s.write_actions).0 s
          (record s { write_actions = (Files.take_ready sel.writable s.write_actions).1 }) refl refl
          (λ n v. record {
            agree = v.agree;
            reads = v.reads;
            writes = t.once v.writes;
            distinct = v.distinct;
            counted = let c = v.counted in let l = t.size in omega arith;
          }))
]

pub close_one-Grows : (fd : ℕ) (s : Fifo) → Grows s (close_one fd s)
unfolding close_one
close_one-Grows fd s = record {
  inv = λ v. record {
    agree = v.agree;
    reads = erase-Once fd s.read_actions v.reads;
    writes = erase-Once fd s.write_actions v.writes;
    distinct = v.distinct;
    counted =
        let c = v.counted in
        let a = length-erase-Once fd s.read_actions v.reads in
        let b = length-erase-Once fd s.write_actions v.writes in omega arith;
  };
  configs = Extends-refl s.configq;
  users = Extends-refl s.userq;
}

pub close_all-Grows : (fds : List ℕ) (s : Fifo) → Grows s (close_all fds s)
unfolding close_all
close_all-Grows [] s = Grows-refl s
close_all-Grows (fd ∷ fds) s =
    Grows-trans s (close_one fd s) _ (close_one-Grows fd s) (close_all-Grows fds (close_one fd s))

-- The queues of registrations, and the descriptors closed so far.
abbrev pub asked :
    Fifo → List (Time × ActionRunnable) × List (ℕ × ActionRunnable) × List (ℕ × ActionRunnable)
asked s = (s.timerq, s.readq, s.writeq)

pub record Leaves (s s' : Fifo) : Type 0 where
  pub asked_same : asked s' ≡ asked s
  pub closed_same : s'.closed ≡ s.closed

pub process_timers-Leaves : (now : Time) (s : Fifo) → Leaves s (process_timers now s)
unfolding process_timers ready_all
process_timers-Leaves now s = record { asked_same = refl; closed_same = refl }

pub process_reads-Leaves : (sel : Selected) (s : Fifo) → Leaves s (process_reads sel s)
unfolding process_reads ready_all
process_reads-Leaves sel s = elim (Bool-cases (ltb 0 sel.result)) [
  | inr e ↦ rw e (record { asked_same = refl; closed_same = refl })
  | inl e ↦ rw e (record { asked_same = refl; closed_same = refl })
]

pub process_writes-Leaves : (sel : Selected) (s : Fifo) → Leaves s (process_writes sel s)
unfolding process_writes ready_all
process_writes-Leaves sel s = elim (Bool-cases (ltb 0 sel.result)) [
  | inr e ↦ rw e (record { asked_same = refl; closed_same = refl })
  | inl e ↦ rw e (record { asked_same = refl; closed_same = refl })
]

pub close_all-asked : (fds : List ℕ) (s : Fifo) → asked (close_all fds s) ≡ asked s
unfolding close_all close_one
close_all-asked [] s = refl
close_all-asked (fd ∷ fds) s = close_all-asked fds (close_one fd s)

pub close_all-closed : (fds : List ℕ) (s : Fifo) → (close_all fds s).closed ≡ s.closed ++ fds
unfolding close_all close_one
close_all-closed [] s = append_nil s.closed
close_all-closed (fd ∷ fds) s =
    close_all-closed fds (close_one fd s) ∙ append_assoc s.closed (fd ∷ []) fds
