-- ===== src/Scheduler/Timers/Due.antt =====
-- The timers that are due (lib/simple_scheduler.cpp, process_ioq), taken from the front.
use ioa.Prelude.{
  ◌≡◌, refl, Bool, true, false, List, [], ◌∷◌, ◌++◌, map, arith, Option, none, some, if◌then◌else◌,
  All, All-map, Bool-cases, inl, inr, ap,
}
use ioa.Time.{Time}
use ioa.Time.Exact.{less}
use ioa.Runnable.{ActionRunnable, equivalent}
use ioa.Scheduler.Timers.{Timers, erase_action, take_due, process}
use ioa.Scheduler.Timers.Order.{less_trans}
use ioa.Scheduler.Timers.Agree.{Agree, From, first, count, when, first_absent, find-erase}

abbrev is_due : Time → Option Time → Bool
is_due now none = false
is_due now (some t) = less t now

-- What the loop comes to.
pub record Takes (now : Time) (s : Timers) (due : List ActionRunnable) (s' : Timers) : Type 0 where
  pub agree : Agree s'
  pub moved :
      (entries : List (Time × ActionRunnable)) × (s.time_to_action ≡ entries ++ s'.time_to_action)
      × (due ≡ map (λ e. e.1) entries)
      × All (λ e. less e.0 now ≡ true) entries
  pub rest : From now s'.time_to_action
  pub times : (j : ActionRunnable) → when j s' ≡ (if is_due now (when j s) then none else when j s)

-- The rest of the timers once the first is taken.
abbrev tail_of :
    ActionRunnable → List (Time × ActionRunnable) → List (ActionRunnable × Time) → Timers
tail_of x l m = record { time_to_action = l; action_to_time = erase_action x m }

tail-Agree :
    (t : Time) (x : ActionRunnable) (l : List (Time × ActionRunnable))
    (m : List (ActionRunnable × Time))
    → Agree (record { time_to_action = (t, x) ∷ l; action_to_time = m })
    → Agree (tail_of x l m)
unfolding count first
tail-Agree t x l m v = record {
  sorted = v.sorted.1;
  once = λ r. let o = v.once r in omega arith;
  agree = λ r.
      let f = find-erase r x m in
      let a = v.agree r in let o = v.once r in let n = first_absent r l in ground arith;
}

-- Where no entry is earlier than now, no action is due.
From-due :
    (now : Time) (j : ActionRunnable) (l : List (Time × ActionRunnable))
    → From now l
    → is_due now (first j l) ≡ false
unfolding first
From-due now j [] h = refl
From-due now j ((u, x) ∷ l) h = elim (Bool-cases (equivalent x j)) [
  | inl e ↦ rw e h.0
  | inr e ↦ rw e (From-due now j l h.1)
]

stays-Takes :
    (now t : Time) (x : ActionRunnable) (l : List (Time × ActionRunnable))
    (m : List (ActionRunnable × Time))
    → less t now ≡ false
    → Agree (record { time_to_action = (t, x) ∷ l; action_to_time = m })
    → Takes now
        (record { time_to_action = (t, x) ∷ l; action_to_time = m })
        []
        (record { time_to_action = (t, x) ∷ l; action_to_time = m })
stays-Takes now t x l m h v =
    let late : From now ((t, x) ∷ l) =
      (h, All-map _ _ (λ e. less_trans now t e.0 h) l v.sorted.0) in
    record {
      agree = v;
      moved = ([], refl, refl, tt);
      rest = late;
      times = λ j. let d = From-due now j ((t, x) ∷ l) late in let a = v.agree j in ground arith;
    }

goes-Takes :
    (now t : Time) (x : ActionRunnable) (l : List (Time × ActionRunnable))
    (m : List (ActionRunnable × Time)) (due : List ActionRunnable) (s' : Timers)
    → less t now ≡ true
    → Agree (record { time_to_action = (t, x) ∷ l; action_to_time = m })
    → Takes now (tail_of x l m) due s'
    → Takes now (record { time_to_action = (t, x) ∷ l; action_to_time = m }) (x ∷ due) s'
unfolding first
goes-Takes now t x l m due s' h v k =
    let (entries, split, same, early) = k.moved in
    record {
      agree = k.agree;
      moved = ((t, x) ∷ entries, ap (λ z. (t, x) ∷ z) split, ap (λ z. x ∷ z) same, (h, early));
      rest = k.rest;
      times =
          λ j. let f = find-erase j x m in let a = v.agree j in let w = k.times j in ground arith;
    }

take_due-Takes :
    (now : Time) (l : List (Time × ActionRunnable)) (m : List (ActionRunnable × Time))
    → Agree (record { time_to_action = l; action_to_time = m })
    → Takes now
        (record { time_to_action = l; action_to_time = m })
        (take_due now l m).0
        (take_due now l m).1
unfolding take_due first
take_due-Takes now [] m v = record {
  agree = v;
  moved = ([], refl, refl, tt);
  rest = tt;
  times = λ j. let a = v.agree j in ground arith;
}
take_due-Takes now ((t, x) ∷ l) m v = elim (Bool-cases (less t now)) [
  | inl h ↦ rw h (
      goes-Takes now t x l m _ _ h v
        (take_due-Takes now l (erase_action x m) (tail-Agree t x l m v)))
  | inr h ↦ rw h (stays-Takes now t x l m h v)
]

-- Where the maps agree, the timers that are taken are the front of the multimap up to the first that
-- is not earlier than now: the runnables come in the order of their times, all of them earlier than
-- now, and no entry that stays is. An action whose time was earlier than now has none any more, and
-- every other keeps its time. The maps agree again.
pub process-Takes :
    (now : Time) (s : Timers) → Agree s → Takes now s (process now s).0 (process now s).1
unfolding process
process-Takes now s v = take_due-Takes now s.time_to_action s.action_to_time v
