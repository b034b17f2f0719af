-- ===== src/UdpSender/Queue.antt =====
-- The queue of datagrams and the two sets of automata (lib/udp_sender_automaton.cpp), over all that can
-- happen to a sender.
use ioa.Prelude.{
  ℕ, ◌+◌, ◌≡◌, refl, Bool, true, false, ◌&&◌, List, [], ◌∷◌, ◌++◌, arith, Option, none, some, ◌==◌,
  if◌then◌else◌, Bool-cases, inl, inr, ap,
}
use ioa.FinSet.{contains, erase, contains-insert, contains-erase, contains-nil}
use ioa.Outcome.{done}
use ioa.UdpSender.{
  UdpSender, SendArg, Opening, construct, opened, schedule_write_ready, write_ready_wait, schedule,
  add_to_complete_set, send_effect, send_complete_precondition, send_complete_effect,
  error_precondition, error_effect, schedule_write_ready_precondition, schedule_write_ready_effect,
  write_ready_precondition, write_ready_effect, write_front, sent, remove_first, forget, purge,
  noop, bound, unbound, observe, ask_if, on_fd, Call, error, schedule_write, write_when_ready,
  may_send,
}
use ioa.UdpSender.Steps.{
  Happening, sends, completes, reports, schedules_write, writes, rebinds, run_if, happen,
  happen_all,
}

abbrev pub count : ℕ → List (ℕ × SendArg) → ℕ
count a [] = 0
count a ((b, arg) ∷ q) = (if a == b then 1 else 0) + count a q

-- The send set holds the automata of the queue, each of which stands there once; none of them is in
-- the complete set.
pub record Held (s : UdpSender) : Type 0 where
  pub queued : (a : ℕ) → count a s.send_queue ≡ (if contains a s.send_set then 1 else 0)
  pub apart : (a : ℕ) → (contains a s.send_set && contains a s.complete_set) ≡ false

count-snoc :
    (a b : ℕ) (arg : SendArg) (q : List (ℕ × SendArg))
    → count a (q ++ (b, arg) ∷ []) ≡ count a q + (if a == b then 1 else 0)
count-snoc a b arg [] = omega arith
count-snoc a b arg ((c, x) ∷ q) = omega (arith, count-snoc a b arg q)

ask_if-Held : (b : Bool) (c : Call) (s : UdpSender) → Held s → Held (ask_if b c s)
ask_if-Held true c s v = record { queued = v.queued; apart = v.apart }
ask_if-Held false c s v = v

schedule-Held : (n : ℕ) (s : UdpSender) → Held s → Held (schedule n s)
unfolding schedule
schedule-Held n s v =
    let p = schedule_write_ready_precondition s in
    ask_if-Held (error_precondition n s) error (ask_if p schedule_write s)
      (ask_if-Held p schedule_write s v)

run_if-Held : (b : Bool) (n : ℕ) (s s' : UdpSender) → Held s → Held s' → Held (run_if b n s s')
run_if-Held true n s s' v w = schedule-Held n s' w
run_if-Held false n s s' v w = v

add_to_complete_set-Held :
    (aid : ℕ) (s : UdpSender)
    → contains aid s.send_set ≡ false
    → Held s
    → Held (add_to_complete_set aid s)
unfolding add_to_complete_set
add_to_complete_set-Held aid s h v = record {
  queued = v.queued;
  apart = λ a. let k = v.apart a in let i = contains-insert a aid s.complete_set in ground arith;
}

send_effect-Held : (arg : SendArg) (aid : ℕ) (s : UdpSender) → Held s → Held (send_effect arg aid s)
unfolding send_effect
send_effect-Held arg aid s v = elim (Bool-cases (may_send aid s)) [
  | inr e ↦ rw e v
  | inl e ↦
      let new : contains aid s.send_set ≡ false = ground arith in
      let free : contains aid s.complete_set ≡ false = ground arith in
      rw e elim (Bool-cases (arg.errno == 0)) [
        | inl f ↦ rw f (record {
          queued = λ a.
              let k = v.queued a in
              let i = contains-insert a aid s.send_set in
              let c = count-snoc a aid arg s.send_queue in ground arith;
          apart =
              λ a. let k = v.apart a in let i = contains-insert a aid s.send_set in ground arith;
        })
        | inr f ↦ rw f (add_to_complete_set-Held aid s new v)
      ]
]

send_complete-Held : (aid : ℕ) (s : UdpSender) → Held s → Held (send_complete_effect aid s)
unfolding send_complete_effect
send_complete-Held aid s v = record {
  queued = v.queued;
  apart = λ a. let k = v.apart a in let e = contains-erase a aid s.complete_set in ground arith;
}

schedule_write-Held : (s : UdpSender) → Held s → Held (schedule_write_ready_effect s)
unfolding schedule_write_ready_effect
schedule_write-Held s v = waits s.fd
  where
    waits :
        (fd : Option ℕ) → Held (record (on_fd write_when_ready fd s) { state = write_ready_wait })
    waits none = record { queued = v.queued; apart = v.apart }
    waits (some fd) = record { queued = v.queued; apart = v.apart }

sent-Held :
    (answer : Option ℕ) (aid : ℕ) (s : UdpSender)
    → contains aid s.send_set ≡ false
    → Held s
    → Held (sent answer aid s)
sent-Held none aid s h v = add_to_complete_set-Held aid s h v
sent-Held (some errno) aid s h v = record { queued = v.queued; apart = v.apart }

-- The automaton whose entry has gone from the queue goes from the send set.
record Drops (aid : ℕ) (q q' : List (ℕ × SendArg)) : Type 0 where
  counts : (a : ℕ) → count a q ≡ count a q' + (if a == aid then 1 else 0)

drop-Held :
    (aid : ℕ) (q : List (ℕ × SendArg)) (s : UdpSender)
    → Drops aid s.send_queue q
    → Held s
    → Held (record s { send_queue = q; send_set = erase aid s.send_set })
drop-Held aid q s d v = record {
  queued = λ a.
      let k = v.queued a in
      let e = contains-erase a aid s.send_set in let c = d.counts a in ground arith;
  apart = λ a. let k = v.apart a in let e = contains-erase a aid s.send_set in ground arith;
}

write_front-Held :
    (answer : Option ℕ) (q : List (ℕ × SendArg)) (s : UdpSender)
    → s.send_queue ≡ q
    → Held s
    → Held (write_front answer q s)
write_front-Held answer [] s h v = v
write_front-Held answer ((aid, arg) ∷ q) s h v =
    sent-Held answer aid (record s { send_queue = q; send_set = erase aid s.send_set })
      (let e = contains-erase aid aid s.send_set in ground arith)
      (drop-Held aid q s (record { counts = λ a. let c = ap (count a) h in omega arith }) v)

write_ready-Held : (answer : Option ℕ) (s : UdpSender) → Held s → Held (write_ready_effect answer s)
unfolding write_ready_effect
write_ready-Held answer s v =
    write_front-Held answer s.send_queue (record s { state = schedule_write_ready }) refl
      (record { queued = v.queued; apart = v.apart })

remove_first_total :
    (aid : ℕ) (q : List (ℕ × SendArg))
    → count aid q ≡ 1
    → (q' : List (ℕ × SendArg)) × (remove_first aid q ≡ some q') × Drops aid q q'
unfolding remove_first
remove_first_total aid [] h = absurd (ground arith)
remove_first_total aid ((b, arg) ∷ q) h = elim (Bool-cases (aid == b)) [
  | inl e ↦ (q, rw e refl, record { counts = λ a. ground arith })
  | inr e ↦
      let (q', f, d) = remove_first_total aid q (ground arith) in
      ((b, arg) ∷ q', rw (e, f) refl, record { counts = λ a. let c = d.counts a in omega arith })
]

forget-Held : (aid : ℕ) (s : UdpSender) → Held s → Held (forget aid s)
forget-Held aid s v = record {
  queued = v.queued;
  apart = λ a. let k = v.apart a in let e = contains-erase a aid s.complete_set in ground arith;
}

purge_total :
    (aid : ℕ) (s : UdpSender) → Held s → (s' : UdpSender) × (purge aid s ≡ done s') × Held s'
unfolding purge
purge_total aid s v = elim (Bool-cases (contains aid s.send_set)) [
  | inr e ↦ (forget aid s, rw e refl, forget-Held aid s v)
  | inl e ↦
      let k = v.queued aid in
      let (q, f, d) = remove_first_total aid s.send_queue (ground arith) in
      let s1 = record s { send_queue = q; send_set = erase aid s.send_set } in
      (forget aid s1, rw (e, f) refl, forget-Held aid s1 (drop-Held aid q s d v))
]

happen_total :
    (n : ℕ) (h : Happening) (s : UdpSender)
    → Held s
    → (s' : UdpSender) × (happen n h s ≡ done s') × Held s'
unfolding happen observe
happen_total n (sends arg aid) s v =
    (_, refl, schedule-Held n (send_effect arg aid s) (send_effect-Held arg aid s v))
happen_total n (completes bindings aid) s v = (
  _,
  refl,
  run_if-Held (send_complete_precondition bindings aid s) n s _ v (send_complete-Held aid s v),
)
happen_total n (reports bindings) s v = (
  _,
  refl,
  run_if-Held (error_precondition bindings s) n s (error_effect s).1 v
      (unfold error_effect in record { queued = v.queued; apart = v.apart }),
)
happen_total n schedules_write s v = (
  _,
  refl,
  run_if-Held (schedule_write_ready_precondition s) n s (schedule_write_ready_effect s) v
      (schedule_write-Held s v),
)
happen_total n (writes answer) s v = (
  _,
  refl,
  run_if-Held (write_ready_precondition s) n s (write_ready_effect answer s) v
      (write_ready-Held answer s v),
)
happen_total n (rebinds noop aid) s v = (s, refl, v)
happen_total n (rebinds bound aid) s v = (s, refl, v)
happen_total n (rebinds unbound aid) s v = purge_total aid s v

construct-Held : (size : ℕ) (o : Opening) → Held (construct size o)
unfolding construct
construct-Held size o = starts o.socket
  where
    starts : (fd : Option ℕ) → Held (opened size o fd)
    starts none = record {
      queued = λ a. rw (contains-nil a) refl;
      apart = λ a. rw (contains-nil a) refl;
    }
    starts (some fd) = record {
      queued = λ a. rw (contains-nil a) refl;
      apart = λ a. rw (contains-nil a) refl;
    }

happen_all_total :
    (hs : List (ℕ × Happening)) (s : UdpSender)
    → Held s
    → (s' : UdpSender) × (happen_all hs s ≡ done s') × Held s'
unfolding happen_all
happen_all_total [] s v = (s, refl, v)
happen_all_total ((n, h) ∷ hs) s v =
    let (s1, e, w) = happen_total n h s v in
    let (s2, f, x) = happen_all_total hs s1 w in (s2, rw (e, f) refl, x)

-- Whatever happens to a sender from its construction on, whether or not its socket is opened and
-- whatever ::sendto answers, the assertion of `purge` that the automaton is found holds. The queue has
-- one datagram of each automaton of the send set and none of any other, and no automaton is both to
-- send and to be told that it has sent.
pub happen_all-construct :
    (size : ℕ) (o : Opening) (hs : List (ℕ × Happening))
    → (s' : UdpSender) × (happen_all hs (construct size o) ≡ done s') × Held s'
happen_all-construct size o hs = happen_all_total hs (construct size o) (construct-Held size o)
