-- ===== src/Samples/Threads.antt =====
-- The theorem on the threads of a scheduler, at a run of two of them.
use ioa.Prelude.{false, refl, [], ◌∷◌, some, inl}
use ioa.Outcome.{Outcome, fault, done}
use ioa.Runnable.{ActionRunnable, internal_runnable}
use ioa.Scheduler.Simple.{
  Simple, Worker, testing, popping, running, construct, make, schedule_execq, test_exec, pop_exec,
  end_exec, nth,
}
use ioa.Scheduler.Simple.Steps.{
  Reaches, constructed, schedules, starts, tests_exec, pops_exec, ends_exec,
}
use ioa.Scheduler.Simple.Count.{Inv}
use ioa.Scheduler.Simple.Reachable.{Reaches-Inv}
use ioa.Samples.{action_of}

abbrev action : ActionRunnable
action = internal_runnable (action_of 4 70)

abbrev simple_of : Outcome Simple → Simple
simple_of fault = construct 2
simple_of (done s) = s

-- The runnable of the automaton 4 goes to the first thread.
abbrev scheduled : Simple
scheduled = simple_of (schedule_execq action (make (construct 2)))

-- Both threads wait at their queues, the second at an empty one.
abbrev waiting : Simple
waiting = test_exec 1 (test_exec 0 (record scheduled { starting = false }))

-- The first thread runs it, finds no other, and ends.
abbrev ended : Simple
ended = test_exec 0 (end_exec 0 (pop_exec 0 (some action) [] waiting))

abbrev worker : Worker
worker = record { queue = some action ∷ []; pc = testing }

ended_reached : Reaches 2 ended
unfolding construct schedule_execq test_exec pop_exec end_exec nth
ended_reached =
    tests_exec 0 (record worker { queue = [] })
      (ends_exec 0 (record worker { queue = []; pc = running })
        (pops_exec 0 (record worker { pc = popping }) (some action) []
          (tests_exec 1 (record worker { queue = [] })
            (tests_exec 0 worker (starts (schedules action constructed (inl refl) refl)) refl refl
              refl)
            refl refl refl)
          refl refl refl)
        refl refl)
      refl refl refl

Reaches-Inv_example : Inv 0 ended
Reaches-Inv_example = Reaches-Inv ended_reached
