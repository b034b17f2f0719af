-- ===== src/Scheduler/Simple/Io.antt =====
-- The steps of the input and output thread (process_ioq of lib/simple_scheduler.cpp).
use ioa.Prelude.{ℕ, ◌+◌, ◌-◌, ◌≡◌, refl, Bool, List, [], ◌∷◌, length, arith, subst, ap}
use ioa.Outcome.{done}
use ioa.Time.{Time}
use ioa.Scheduler.Timers.{Timers}
use ioa.Scheduler.Timers
use ioa.Scheduler.Timers.Register.{register_all_total}
use ioa.Scheduler.Timers.Due.{process-Takes}
use ioa.Scheduler.Files
use ioa.Scheduler.Files.{Once, register-Registered, erase-Once, length-erase-Once, take_ready-Takes}
use ioa.Scheduler.Fifo.Parts.{length-append_map}
use ioa.Scheduler.Simple.{Simple}
use ioa.Scheduler.Simple.Steps.{
  io_timers, io_reads, io_writes, io_close_one, io_close, io_due, io_ready_reads, io_ready_writes,
}
use ioa.Scheduler.Simple.Count.{Inv, still-Inv, schedule_all-Inv}

pub io_timers-Inv : (s s' : Simple) → io_timers s ≡ done s' → Inv 0 s → Inv 0 s'
unfolding io_timers
io_timers-Inv s s' e v =
    let (timers, n, f, a, w, size) = register_all_total s.timerq s.timers v.agree in
    let back = rw f at e in
    let s1 : Simple = record s { timerq = []; timers = timers; count = s.count - n } in
    let same : s1 ≡ s' = ground arith in
    subst (Inv 0) same (
      still-Inv 0 0 s s1 refl refl refl refl (λ z. omega arith) a v.reads v.writes
        (let c = v.counted in omega arith) v)

pub io_reads-Inv : (s : Simple) → Inv 0 s → Inv 0 (io_reads s)
unfolding io_reads
io_reads-Inv s v =
    let g = register-Registered s.readq s.read_actions v.reads in
    still-Inv 0 0 s (io_reads s) refl refl refl refl (λ z. omega arith) v.agree g.once v.writes
      (let c = v.counted in let l = g.size in omega arith) v

pub io_writes-Inv : (s : Simple) → Inv 0 s → Inv 0 (io_writes s)
unfolding io_writes
io_writes-Inv s v =
    let g = register-Registered s.writeq s.write_actions v.writes in
    still-Inv 0 0 s (io_writes s) refl refl refl refl (λ z. omega arith) v.agree v.reads g.once
      (let c = v.counted in let l = g.size in omega arith) v

pub io_close-Inv : (fds : List ℕ) (s : Simple) → Inv 0 s → Inv 0 (io_close fds s)
unfolding io_close io_close_one
io_close-Inv [] s v =
    still-Inv 0 0 s (record s { closeq = [] }) refl refl refl refl (λ z. z) v.agree v.reads v.writes
      v.counted v
io_close-Inv (fd ∷ fds) s v =
    let a = length-erase-Once fd s.read_actions v.reads in
    let b = length-erase-Once fd s.write_actions v.writes in
    io_close-Inv fds (io_close_one fd s) (
      still-Inv 0 0 s (io_close_one fd s) refl refl refl refl (λ z. omega arith) v.agree
        (erase-Once fd s.read_actions v.reads) (erase-Once fd s.write_actions v.writes)
        (let c = v.counted in omega arith) v)

pub io_due-Inv : (now : Time) (s s' : Simple) → io_due now s ≡ done s' → Inv 0 s → Inv 0 s'
unfolding io_due
io_due-Inv now s s' e v =
    let t = process-Takes now s.timers v.agree in
    let (entries, split, same, early) = t.moved in
    let due = (Timers.process now s.timers).0 in
    let s1 : Simple = record s { timers = (Timers.process now s.timers).1 } in
    let l = length-append_map entries (Timers.process now s.timers).1.time_to_action in
    let a = ap length split in
    let b = ap length same in
    schedule_all-Inv 0 due s1 s' e (
      still-Inv 0 (length due + 0) s s1 refl refl refl refl (λ z. z) t.agree v.reads v.writes
        (let c = v.counted in omega arith) v)

pub io_ready_reads-Inv :
    (ready : ℕ → Bool) (s s' : Simple) → io_ready_reads ready s ≡ done s' → Inv 0 s → Inv 0 s'
unfolding io_ready_reads
io_ready_reads-Inv ready s s' e v =
    let t = take_ready-Takes ready s.read_actions in
    let rs = (Files.take_ready ready s.read_actions).0 in
    let s1 : Simple = record s { read_actions = (Files.take_ready ready s.read_actions).1 } in
    schedule_all-Inv 0 rs s1 s' e (
      still-Inv 0 (length rs + 0) s s1 refl refl refl refl (λ z. z) v.agree (t.once v.reads)
        v.writes (let c = v.counted in let l = t.size in omega arith) v)

pub io_ready_writes-Inv :
    (ready : ℕ → Bool) (s s' : Simple) → io_ready_writes ready s ≡ done s' → Inv 0 s → Inv 0 s'
unfolding io_ready_writes
io_ready_writes-Inv ready s s' e v =
    let t = take_ready-Takes ready s.write_actions in
    let rs = (Files.take_ready ready s.write_actions).0 in
    let s1 : Simple = record s { write_actions = (Files.take_ready ready s.write_actions).1 } in
    schedule_all-Inv 0 rs s1 s' e (
      still-Inv 0 (length rs + 0) s s1 refl refl refl refl (λ z. z) v.agree v.reads
        (t.once v.writes) (let c = v.counted in let l = t.size in omega arith) v)
