-- ===== src/Scheduler/Fifo/Hang.antt =====
-- The case of a round (lib/global_fifo_scheduler.cpp) in which the last runnables wait for descriptors
-- that are to be closed.
use ioa.Prelude.{
  ℕ, ◌≡◌, ◌≢◌, refl, true, false, List, [], ◌∷◌, arith, none, is_some, length, ◌+◌, if◌then◌else◌,
  ap, Option-cases, List-cases, inl, inr,
}
use ioa.FinMap.{lookup, lookup-erase}
use ioa.FinSet.{contains}
use ioa.Outcome.{done}
use ioa.Time.{Time}
use ioa.Runnable.{ActionRunnable}
use ioa.Scheduler.Fifo.{Fifo}
use ioa.Scheduler.Fifo.Loop.{close_one, close_all, timeout, wait, has_work, must_select}
use ioa.Scheduler.Fifo.Counts.{Inv}
use ioa.Scheduler.Fifo.Parts.{close_all-Grows}

close_all-reads :
    (fd : ℕ) (fds : List ℕ) (s : Fifo)
    → lookup fd (close_all fds s).read_actions
      ≡ (if contains fd fds then none else lookup fd s.read_actions)
unfolding close_all close_one contains
close_all-reads fd [] s = refl
close_all-reads fd (x ∷ fds) s =
    let e = lookup-erase fd x s.read_actions in
    let h = close_all-reads fd fds (close_one x s) in ground arith

close_all-writes :
    (fd : ℕ) (fds : List ℕ) (s : Fifo)
    → lookup fd (close_all fds s).write_actions
      ≡ (if contains fd fds then none else lookup fd s.write_actions)
unfolding close_all close_one contains
close_all-writes fd [] s = refl
close_all-writes fd (x ∷ fds) s =
    let e = lookup-erase fd x s.write_actions in
    let h = close_all-writes fd fds (close_one x s) in ground arith

none_there : (m : List (ℕ × ActionRunnable)) → ((fd : ℕ) → lookup fd m ≡ none) → m ≡ []
unfolding lookup
none_there [] h = refl
none_there ((fd, r) ∷ m) h = absurd (let e = h fd in ground arith)

-- Every descriptor that is waited for is to be closed.
abbrev pub AllClosing : Fifo → Type 0
AllClosing s =
    ((fd : ℕ) → is_some (lookup fd s.read_actions) ≡ true → contains fd s.close_set ≡ true)
    × ((fd : ℕ) → is_some (lookup fd s.write_actions) ≡ true → contains fd s.close_set ≡ true)

module _ (s : Fifo) (closing : AllClosing s) where
  no_reads : (close_all s.close_set s).read_actions ≡ []
  no_reads = none_there _ (λ fd.
      let e = close_all-reads fd s.close_set s in
      let c = closing.0 fd in
      elim (Option-cases (lookup fd s.read_actions)) [
        | inl h ↦ ground arith
        | inr (r, h) ↦ ground arith
      ])

  no_writes : (close_all s.close_set s).write_actions ≡ []
  no_writes = none_there _ (λ fd.
      let e = close_all-writes fd s.close_set s in
      let c = closing.1 fd in
      elim (Option-cases (lookup fd s.write_actions)) [
        | inl h ↦ ground arith
        | inr (r, h) ↦ ground arith
      ])

-- The queues and the timers are untouched by the closing.
abbrev pub rest : Fifo → ℕ
rest s =
    length s.configq
    + length s.userq
    + length s.timerq
    + length s.readq
    + length s.writeq
    + length s.timers.time_to_action

close_all-rest : (fds : List ℕ) (s : Fifo) → rest (close_all fds s) ≡ rest s
unfolding close_all close_one
close_all-rest [] s = refl
close_all-rest (fd ∷ fds) s = close_all-rest fds (close_one fd s)

-- After the registrations of a round, with nothing queued and no timer, and some descriptor waited
-- for, all of which are to be closed: the code selects, without a timeout, after the closing has
-- deleted every runnable and left no descriptor to wait for. ::select is then called to wait forever
-- for nothing, though the number of runnables, which would end the loop, is 0.
pub close_all-hangs :
    (now : Time) (s : Fifo)
    → Inv 0 s
    → rest s ≡ 0
    → length s.read_actions + length s.write_actions ≢ 0
    → AllClosing s
    → (must_select s ≡ true)
      × (timeout now s ≡ done none)
      × ((close_all s.close_set s).read_actions ≡ [])
      × ((close_all s.close_set s).write_actions ≡ [])
      × ((close_all s.close_set s).count ≡ 0)
unfolding timeout wait
close_all-hangs now s v h some_fd closing =
    let r = no_reads s closing in
    let w = no_writes s closing in
    let c = ((close_all-Grows s.close_set s).inv v).counted in
    let k = close_all-rest s.close_set s in
    let lr = ap length r in
    let lw = ap length w in
    let idle : has_work s ≡ false = ground arith in
    (
      ground arith,
      elim (List-cases s.timers.time_to_action) [
        | inl e ↦ rw (e, idle) refl
        | inr (x, l, e) ↦ absurd (let le = ap length e in omega arith)
      ],
      r,
      w,
      omega arith,
    )
