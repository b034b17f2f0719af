-- ===== src/Scheduler/Timers.antt =====
-- The timers of a scheduler's input and output loop (lib/simple_scheduler.cpp; the code stands again
-- in lib/global_fifo_scheduler.cpp): a multimap from times to runnables, and a map back. Times are
-- ordered by the exact comparison, which operator< is for times of less than 4 * 10 ^ 12 seconds.
pub mod Order
pub mod Agree
pub mod Register
pub mod Due
use ioa.Prelude.{ℕ, ◌+◌, Bool, ◌&&◌, not, List, [], ◌∷◌, Option, none, some, if◌then◌else◌}
use ioa.Outcome.{Outcome, done, or_fault, ◌>>=◌}
use ioa.Time.{Time}
use ioa.Time.Exact.{less}
use ioa.Runnable.{ActionRunnable, equivalent, equal}

-- A list of the multimap is in the order of the multimap; equal times are in the order of their
-- insertion. Nothing reads the order of the other map.
pub record Timers : Type 0 where
  pub time_to_action : List (Time × ActionRunnable)
  pub action_to_time : List (ActionRunnable × Time)

unfoldable pub init : Timers
init = record { time_to_action = []; action_to_time = [] }

-- std::multimap::insert
unfoldable pub place :
    Time → ActionRunnable → List (Time × ActionRunnable) → List (Time × ActionRunnable)
unfolding less
place t r [] = (t, r) ∷ []
place t r ((u, x) ∷ l) = if less t u then (t, r) ∷ (u, x) ∷ l else (u, x) ∷ place t r l

unfoldable pub find_action :
    ActionRunnable → List (ActionRunnable × Time) → Option (ActionRunnable × Time)
unfolding equivalent
find_action r [] = none
find_action r ((x, t) ∷ m) = if equivalent x r then some (x, t) else find_action r m

unfoldable pub erase_action :
    ActionRunnable → List (ActionRunnable × Time) → List (ActionRunnable × Time)
unfolding equivalent
erase_action r [] = []
erase_action r ((x, t) ∷ m) = if equivalent x r then erase_action r m else (x, t) ∷ erase_action r m

-- A time that std::multimap::find takes for the key.
abbrev pub same_time : Time → Time → Bool
same_time t u = not (less t u) && not (less u t)

abbrev pub cons_to :
    Time × ActionRunnable
    → Option (List (Time × ActionRunnable))
    → Option (List (Time × ActionRunnable))
cons_to e none = none
cons_to e (some l) = some (e ∷ l)

-- The loop that moves the iterator on to the runnable, and its erasure; none where this would be
-- an erasure of the end. The runnables of a multimap have different actions, so that the test of the
-- pointers is one of the actions.
unfoldable pub erase_forward :
    ActionRunnable → List (Time × ActionRunnable) → Option (List (Time × ActionRunnable))
unfolding equal
erase_forward r [] = none
erase_forward r ((u, x) ∷ l) =
    let rest = erase_forward r l in if equal x r then some l else cons_to (u, x) rest

-- The loop from the first entry of the time.
unfoldable pub erase_timer :
    Time → ActionRunnable → List (Time × ActionRunnable) → Option (List (Time × ActionRunnable))
unfolding less erase_forward
erase_timer t r [] = none
erase_timer t r ((u, x) ∷ l) =
    let rest = erase_timer t r l in
    if same_time u t then erase_forward r ((u, x) ∷ l) else cons_to (u, x) rest

abbrev pub add : Time → ActionRunnable → Timers → Timers
add t r s = record {
  time_to_action = place t r s.time_to_action;
  action_to_time = (r, t) ∷ s.action_to_time;
}

-- The three branches, by what the search of action_to_time answers.
abbrev pub register_at :
    Time → ActionRunnable → Timers → Option (ActionRunnable × Time) → Outcome (Timers × ℕ)
register_at t r s none = done (add t r s, 0)
register_at t r s (some (x, u)) =
    if less t u
    then (do
      rest ← or_fault (erase_timer u x s.time_to_action)
      done (
        add t r
            (record { time_to_action = rest; action_to_time = erase_action x s.action_to_time }),
        1,
      ))
    else done (s, 1)

-- One registration; the number is how many runnables are deleted.
unfoldable pub register : Time → ActionRunnable → Timers → Outcome (Timers × ℕ)
unfolding find_action erase_timer erase_action less place
register t r s = register_at t r s (find_action r s.action_to_time)

-- The loop over m_timerq.
unfoldable pub register_all : List (Time × ActionRunnable) → Timers → Outcome (Timers × ℕ)
unfolding register
register_all [] s = done (s, 0)
register_all ((t, r) ∷ q) s = do
  (s1, n) ← register t r s
  (s2, k) ← register_all q s1
  done (s2, n + k)

-- The loop that takes the timers that are due, with the two maps as arguments: the runnables to
-- schedule, in order, and the maps that stay.
unfoldable pub take_due :
    Time
    → List (Time × ActionRunnable)
    → List (ActionRunnable × Time)
    → List ActionRunnable × Timers
unfolding less erase_action
take_due now [] m = ([], record { time_to_action = []; action_to_time = m })
take_due now ((t, x) ∷ l) m =
    let (due, rest) = take_due now l (erase_action x m) in
    if less t now
    then (x ∷ due, rest)
    else ([], record { time_to_action = (t, x) ∷ l; action_to_time = m })

unfoldable pub process : Time → Timers → List ActionRunnable × Timers
unfolding take_due
process now s = take_due now s.time_to_action s.action_to_time
