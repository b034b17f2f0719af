-- ===== src/Scheduler/Fifo/Poll.antt =====
-- The part of a round that runs nothing: registrations, closed descriptors, timers, ready descriptors.
use ioa.Prelude.{
  ℕ, ◌≡◌, refl, true, List, [], ◌∷◌, ◌++◌, arith, Option, none, some, if◌then◌else◌, Bool-cases,
  inl, inr, sym, ap, ◌∙◌,
}
use ioa.Outcome.{done}
use ioa.Prelude.Int.{ℤ, pos, pos_part, neg_part, -ℤ_parts, parts_apart}
use ioa.Time.{Time}
use ioa.Time.Exact.{value}
use ioa.Time.Exact
use ioa.Time
use ioa.Time.Exact.Normal.{difference_total, value-parts}
use ioa.Time.Exact.Order.{less-value}
use ioa.Runnable.{ActionRunnable}
use ioa.Scheduler.Timers.Register.{register_all_total}
use ioa.Scheduler.Files.{register-Registered}
use ioa.Scheduler.Queue.{Extends, Extends-refl}
use ioa.Scheduler.Calls.{Selects, Env}
use ioa.Scheduler.Fifo.{Fifo}
use ioa.Scheduler.Fifo.Loop.{
  register, close_all, process_timers, process_reads, process_writes, must_select, select, poll,
  registered, fds_of, timeout, wait, has_work,
}
use ioa.Scheduler.Fifo.Counts.{Inv, Grows, Grows-trans}
use ioa.Scheduler.Fifo.Parts.{
  process_timers-Grows, process_reads-Grows, process_writes-Grows, close_all-Grows,
  process_timers-Leaves, process_reads-Leaves, process_writes-Leaves, close_all-asked,
  close_all-closed, asked,
}

-- What a poll comes to; `s1` is the state after its registrations.
pub record Polls (running : ℕ) (s s1 s' : Fifo) : Type 0 where
  pub registered : register s ≡ done s1
  pub inv : Inv running s'
  pub configs : Extends s.configq s'.configq
  pub users : Extends s.userq s'.userq
  pub emptied : (asked s' ≡ ([], [], [])) × (s'.close_set ≡ [])
  pub closed : s'.closed ≡ (if must_select s1 then s.closed ++ s.close_set else s.closed)

later_total :
    (t now : Time)
    → Exact.greater t now ≡ true
    → (d : Time) × (Exact.sub t now ≡ done d) × (Time.to_timeval d ≡ done (d.sec, d.usec))
unfolding Time.to_timeval
later_total t now h =
    let (d, e, n, v) = difference_total t now in
    let order = (less-value t now).1 in
    let parts = value-parts d in
    let a = -ℤ_parts (value t) (value now) in
    let p = n.positive in
    let q = n.negative in
    let b = n.below in
    let c = n.above in
    let same = ap pos_part v in
    let same' = ap neg_part v in (d, e, ground (arith, parts_apart d.usec, parts_apart d.sec))

wait_total :
    (now : Time) (l : List (Time × ActionRunnable)) → (w : Option (ℤ × ℤ)) × (wait now l ≡ done w)
unfolding wait
wait_total now [] = (none, refl)
wait_total now ((t, x) ∷ l) = elim (Bool-cases (Exact.greater t now)) [
  | inl h ↦ let (d, f, g) = later_total t now h in (some (d.sec, d.usec), rw (h, f, g) refl)
  | inr h ↦ (some (pos 0, pos 0), rw h refl)
]

timeout_total : (now : Time) (s : Fifo) → (w : Option (ℤ × ℤ)) × (timeout now s ≡ done w)
unfolding timeout
timeout_total now s =
    let (w, e) = wait_total now s.timers.time_to_action in
    (if has_work s then some (pos 0, pos 0) else w, rw e refl)

-- What the registrations leave as it is.
record Registers (s s1 : Fifo) : Type 0 where
  configs : s1.configq ≡ s.configq
  users : s1.userq ≡ s.userq
  closed : s1.closed ≡ s.closed
  close_set : s1.close_set ≡ s.close_set
  emptied : asked s1 ≡ ([], [], [])

-- The selection, with the queues of registrations as they are.
record Settles (s s2 : Fifo) : Type 0 where
  grows : Grows s s2
  emptied : asked s2 ≡ asked s
  closed : s2.closed ≡ s.closed ++ s.close_set

select_total :
    (s : Fifo) (env : Env) (w : Option (ℤ × ℤ))
    → Selects env
    → (s2 : Fifo) × (select env w s ≡ done s2) × Settles s s2
unfolding select
select_total s env w selects =
    let s1 = close_all s.close_set s in
    let (sel, given) = selects w (fds_of s1.read_actions) (fds_of s1.write_actions) in
    let s2 = process_timers env.now s1 in
    let s3 = process_reads sel s2 in
    let a = process_timers-Leaves env.now s1 in
    let b = process_reads-Leaves sel s2 in
    let c = process_writes-Leaves sel s3 in
    (
      process_writes sel s3,
      rw given refl,
      record {
        grows = Grows-trans s s1 _ (close_all-Grows s.close_set s) (
            Grows-trans s1 s2 _ (process_timers-Grows env.now s1)
              (Grows-trans s2 s3 _ (process_reads-Grows sel s2) (process_writes-Grows sel s3)));
        emptied = c.asked_same ∙ b.asked_same ∙ a.asked_same ∙ close_all-asked s.close_set s;
        closed = c.closed_same ∙ b.closed_same ∙ a.closed_same ∙ close_all-closed s.close_set s;
      },
    )

cleared-Inv : {running : ℕ} (s : Fifo) → Inv running s → Inv running (record s { close_set = [] })
cleared-Inv s v = record {
  agree = v.agree;
  reads = v.reads;
  writes = v.writes;
  distinct = v.distinct;
  counted = v.counted;
}

module _ (running : ℕ) (s : Fifo) (v : Inv running s) where
  register_total : (s1 : Fifo) × (register s ≡ done s1) × Inv running s1 × Registers s s1
  unfolding register
  register_total =
      let (timers, n, e, a, w, size) = register_all_total s.timerq s.timers v.agree in
      let r = register-Registered s.readq s.read_actions v.reads in
      let k = register-Registered s.writeq s.write_actions v.writes in
      (
        registered s timers n,
        rw e refl,
        record {
          agree = a;
          reads = r.once;
          writes = k.once;
          distinct = v.distinct;
          counted = let c = v.counted in let x = r.size in let y = k.size in omega arith;
        },
        record { configs = refl; users = refl; closed = refl; close_set = refl; emptied = refl },
      )

  -- Where every runnable in existence runs or waits in one place, and ::select does not fail, the part
  -- of a round before it runs anything returns, and the same holds again: no runnable is lost. The two
  -- queues of runnables only grow at the end, and the queues of registrations and the set of
  -- descriptors to close are empty. The descriptors of that set have been closed exactly if a timer or
  -- a descriptor was waited for; otherwise none has.
  pub poll_total :
      (env : Env)
      → Selects env
      → (s1 : Fifo) × (s' : Fifo) × (poll env s ≡ done s') × Polls running s s1 s'
  unfolding poll
  poll_total env selects =
      let (s1, e, w, k) = register_total in
      let (t, waits) = timeout_total env.now s1 in
      elim (Bool-cases (must_select s1)) [
        | inr h ↦ (
          s1,
          record s1 { close_set = [] },
          rw (e, waits, h) refl,
          record {
            registered = e;
            inv = cleared-Inv s1 w;
            configs = rw k.configs (Extends-refl s.configq);
            users = rw k.users (Extends-refl s.userq);
            emptied = (k.emptied, refl);
            closed = rw h k.closed;
          },
        )
        | inl h ↦
            let (s2, f, p) = select_total s1 env t selects in
            (
              s1,
              record s2 { close_set = [] },
              rw (e, waits, h, f) refl,
              record {
                registered = e;
                inv = cleared-Inv s2 (p.grows.inv w);
                configs = rw (sym k.configs) p.grows.configs;
                users = rw (sym k.users) p.grows.users;
                emptied = (p.emptied ∙ k.emptied, refl);
                closed = rw (h, sym k.closed, sym k.close_set) p.closed;
              },
            )
      ]
