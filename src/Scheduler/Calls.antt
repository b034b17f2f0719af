-- ===== src/Scheduler/Calls.antt =====
-- What an automaton's code asks of its scheduler (include/ioa/scheduler_interface.hpp), and what a
-- round of a scheduler takes from outside of the library.
use ioa.Prelude.{◌≡◌, some, ℕ, Bool, List, Option}
use ioa.Prelude.Int.{ℤ}
use ioa.Time.{Time}
use ioa.Executor.Run.{Step}
use ioa.Runnable.{
  ActionRunnable, Runnable, SystemOutput, sys_create, sys_bind, sys_unbind, sys_destroy, User,
  sys_create_runnable, sys_bind_runnable, sys_unbind_runnable, sys_destroy_runnable,
}

pub data Call : Type 0 where
  schedule_sys : SystemOutput → Call
  schedule : ActionRunnable → Call
  schedule_after : ActionRunnable → Time → Call
  schedule_read_ready schedule_write_ready : ActionRunnable → (fd : ℕ) → Call
  close : (fd : ℕ) → Call

abbrev pub sys_runnable : SystemOutput → ℕ → Runnable
sys_runnable sys_create aid = sys_create_runnable aid
sys_runnable sys_bind aid = sys_bind_runnable aid
sys_runnable sys_unbind aid = sys_unbind_runnable aid
sys_runnable sys_destroy aid = sys_destroy_runnable aid

-- What ::select gives back, if not -1.
pub record Selected : Type 0 where
  pub result : ℕ
  pub readable : ℕ → Bool
  pub writable : ℕ → Bool

-- The clock, ::select, the automata's code, and the calls that it makes: under a step of an
-- executor, under an aid that the model sets, and in destructors.
pub record Env : Type 0 where
  pub now : Time
  -- By the timeout, if any, and the descriptors to read and to write.
  pub select : Option (ℤ × ℤ) → List ℕ → List ℕ → Option Selected
  pub user : User
  pub on_step : Step → List Call
  pub on_aid : ℕ → List Call
  pub on_destruct : List Call

-- ::select does not fail.
abbrev pub Selects : Env → Type 0
Selects env =
    (timeout : Option (ℤ × ℤ)) (reads writes : List ℕ)
    → (sel : Selected) × (env.select timeout reads writes ≡ some sel)
