-- ===== src/Samples/Schedulers.antt =====
-- The theorems on runnables and on the schedulers, at small queues.
use ioa.Prelude.{
  ℕ, ◌≡◌, ◌+◌, ◌==◌, refl, sym, subst, ◌∙◌, arith, true, false, List, [], ◌∷◌, length, none, some,
}
use ioa.Prelude.Int.{pos}
use ioa.Outcome.{Outcome, fault, done}
use ioa.Time.{Time}
use ioa.Automaton
use ioa.Runnable.{ActionRunnable, internal_runnable, output_runnable, User}
use ioa.Scheduler.Timers.{Timers, register_all, process}
use ioa.Scheduler.Timers
use ioa.Scheduler.Timers.Agree.{Agree, init-Agree, when}
use ioa.Scheduler.Timers.Register.{earliest, register_all_total}
use ioa.Scheduler.Timers.Due.{Takes, process-Takes}
use ioa.Scheduler.Calls.{
  Selected, Selects, Env, schedule, schedule_after, schedule_read_ready, close,
}
use ioa.Scheduler.Fifo.{Fifo, init}
use ioa.Scheduler.Fifo.Loop.{poll, rounds, start, must_select, timeout, close_all}
use ioa.Scheduler.Fifo.Hang.{AllClosing, close_all-hangs}
use ioa.FinMap.{lookup, count_keys}
use ioa.FinSet.{contains}
use ioa.Scheduler.Fifo.Counts.{Inv}
use ioa.Scheduler.Fifo.Poll.{Polls, poll_total}
use ioa.Scheduler.Fifo.Round.{start-rounds-Inv, rounds-front}
use ioa.Scheduler.Queue.{Extends}
use ioa.Samples.{instance_at, action_of}

abbrev seconds : ℕ → Time
seconds n = record { sec = pos n; usec = pos 0 }

abbrev first_action : ActionRunnable
first_action = internal_runnable (action_of 0 70)

abbrev second_action : ActionRunnable
second_action = output_runnable (action_of 1 40)

abbrev user : User
user = record {
  allocator = λ request. some (instance_at 500);
  output_of = λ request. action_of 1 45;
  input_of = λ request. action_of 3 60;
  enabled = λ x. true;
  asked = λ aid what. none;
  output_member = λ aid what. action_of aid 80;
  input_member = λ aid what. action_of aid 90;
  state_of = λ aid. Automaton.init;
}

-- The first action is asked for twice.
abbrev requests : List (Time × ActionRunnable)
requests = (seconds 9, first_action) ∷ (seconds 7, second_action) ∷ (seconds 5, first_action) ∷ []

register_all_total_example :
    (s' : Timers) × (deleted : ℕ) × (register_all requests Timers.init ≡ done (s', deleted))
    × Agree s'
    × ((j : ActionRunnable) → when j s' ≡ earliest j requests (when j Timers.init))
    × (length s'.time_to_action + deleted ≡ length requests + length Timers.init.time_to_action)
register_all_total_example = register_all_total requests Timers.init init-Agree

abbrev two_timers : Timers
two_timers = record {
  time_to_action = (seconds 5, first_action) ∷ (seconds 7, second_action) ∷ [];
  action_to_time = (first_action, seconds 5) ∷ (second_action, seconds 7) ∷ [];
}

two_registered : register_all requests Timers.init ≡ done (two_timers, 1)
unfolding register_all Timers.init
two_registered = refl

two_Agree : Agree two_timers
two_Agree =
    let (s', n, e, a, w, size) = register_all_total requests Timers.init init-Agree in
    subst Agree (first_of (sym e ∙ two_registered)) a
  where
    first_of :
        {s s' : Timers} {n k : ℕ}
        → ◌≡◌ {A = Outcome (Timers × ℕ)} (done (s, n)) (done (s', k))
        → s ≡ s'
    first_of e = ground arith

process-Takes_example :
    Takes
      (seconds 6)
      two_timers
      (process (seconds 6) two_timers).0
      (process (seconds 6) two_timers).1
process-Takes_example = process-Takes (seconds 6) two_timers two_Agree

abbrev selected : Selected
selected = record { result = 1; readable = λ fd. fd == 4; writable = λ fd. false }

-- The root automaton's constructor makes five calls; its actions ask for nothing more.
abbrev env : Env
env = record {
  now = seconds 6;
  select = λ timeout reads writes. some selected;
  user = user;
  on_step = λ e. [];
  on_aid = λ aid.
      schedule first_action
      ∷ schedule second_action
      ∷ schedule_after first_action (seconds 2)
      ∷ schedule_read_ready second_action 4
      ∷ close 5
      ∷ [];
  on_destruct = [];
}

selects : Selects env
selects = λ timeout reads writes. (selected, refl)

abbrev fifo_of : Outcome Fifo → Fifo
fifo_of fault = init
fifo_of (done s) = s

abbrev started : Fifo
started = fifo_of (start env (some (instance_at 100)))

start_done : start env (some (instance_at 100)) ≡ done started
unfolding start
start_done = refl

abbrev two_rounds : List Env
two_rounds = env ∷ env ∷ []

abbrev ran : Fifo
ran = fifo_of (rounds two_rounds started)

rounds_done : rounds two_rounds started ≡ done ran
unfolding start rounds
rounds_done = refl

start-rounds-Inv_example : Inv 0 ran
start-rounds-Inv_example =
    start-rounds-Inv env (some (instance_at 100)) two_rounds started ran start_done
      (selects, (selects, tt)) rounds_done

started-Inv : Inv 0 started
unfolding rounds
started-Inv = start-rounds-Inv env (some (instance_at 100)) [] started started start_done tt refl

poll_total_example :
    (s1 : Fifo) × (s' : Fifo) × (poll env started ≡ done s') × Polls 0 started s1 s'
poll_total_example = poll_total 0 started started-Inv env selects

-- The second of the two actions that the constructor schedules.
abbrev one_round : Fifo
one_round = fifo_of (rounds (env ∷ []) started)

one_round_done : rounds (env ∷ []) started ≡ done one_round
unfolding start rounds
one_round_done = refl

two_scheduled : started.userq ≡ first_action ∷ second_action ∷ []
unfolding start
two_scheduled = refl

rounds-front_example : Extends (second_action ∷ []) one_round.userq
rounds-front_example =
    rounds-front (env ∷ []) (first_action ∷ []) [] second_action started one_round refl
      (selects, tt) started-Inv two_scheduled one_round_done

-- One runnable, which waits for a descriptor that is to be closed.
abbrev waiting : Fifo
waiting = record init { read_actions = (4, first_action) ∷ []; close_set = 4 ∷ []; count = 1 }

waiting_Inv : Inv 0 waiting
unfolding init Timers.init count_keys
waiting_Inv = record {
  agree = init-Agree;
  reads = λ k. ground arith;
  writes = λ k. omega arith;
  distinct = tt;
  counted = refl;
}

waiting_closing : AllClosing waiting
unfolding init lookup contains
waiting_closing = (λ fd h. ground arith, λ fd h. ground arith)

close_all-hangs_example :
    (must_select waiting ≡ true)
    × (timeout (seconds 6) waiting ≡ done none)
    × ((close_all (4 ∷ []) waiting).read_actions ≡ [])
    × ((close_all (4 ∷ []) waiting).write_actions ≡ [])
    × ((close_all (4 ∷ []) waiting).count ≡ 0)
unfolding init Timers.init
close_all-hangs_example =
    close_all-hangs (seconds 6) waiting waiting_Inv refl (λ e. ground arith) waiting_closing
