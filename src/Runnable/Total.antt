-- ===== src/Runnable/Total.antt =====
-- Runnables run on a model that the invariant holds of.
use ioa.Prelude.{true, if◌then◌else◌, ℕ, ◌≡◌, refl, List, Option, some}
use ioa.Outcome.{Outcome, done}
use ioa.SequentialSet.{has}
use ioa.Event.{Event}
use ioa.AutomatonRecord.{Instance}
use ioa.Executor.Run.{Step, all_set}
use ioa.Model.{Model, Status, record_of}
use ioa.Model.Binding.{Inv-framed}
use ioa.Model.Execute.{forward}
use ioa.Model.Reachable.{Sound}
use ioa.Model.Creators.{Created}
use ioa.Model.Destroyers.{Outcomes, child_at}
use ioa.Model.Binders.{Binds}
use ioa.Model.Unbinding.{Unbinding}
use ioa.Runnable.{
  Runnable, User, SystemOutput, sys_create, sys_bind, sys_unbind, sys_destroy, run, create_runnable,
  bind_runnable, unbind_runnable, destroy_runnable, sys_create_runnable, sys_bind_runnable,
  sys_unbind_runnable, sys_destroy_runnable,
}

-- The log takes no part in the invariant.
pub logged-Sound : (m : Model) (log : List Event) → Sound m → Sound (record m { log = log })
logged-Sound m log (rank, v) =
    (rank, Inv-framed rank m (record m { log = log }) (λ a. refl) refl refl v.linked v)

-- What is asked by a system output of an automaton goes to the scheduler, if the automaton is there.
abbrev pub Hands : User → Model → ℕ → SystemOutput → Model → Type 0
Hands u m aid what m' =
    let x = u.output_member aid what in
    m' ≡ (if has m.aids x.aid then forward m x.aid (u.asked aid what) else m)

-- What the run of each kind leaves behind. A runnable of a method of the model leaves what the
-- method, called with the runnable's own arguments, does; one of a system output hands on what is
-- asked of the automaton, if it is there; the others leave the model as it is.
abbrev pub Leaves : (rank : ℕ → ℕ) → User → Model → Runnable → Model → Type 0
Leaves rank u m (create_runnable aid request key) m' =
    (i : Instance) × (result : Option ℕ) × (u.allocator request ≡ some i)
    × Created rank m (some aid) i key result m'
Leaves rank u m (bind_runnable aid request key) m' =
    (status : Status) × Binds rank m aid (u.output_of request) (u.input_of request) key m' status
Leaves rank u m (unbind_runnable aid key) m' =
    (status : Status) × Unbinding rank m aid key m' status
Leaves rank u m (destroy_runnable aid key) m' =
    (status : Status) × Outcomes rank m m' (child_at aid key (record_of aid m)) status
Leaves rank u m (sys_create_runnable aid) m' = Hands u m aid sys_create m'
Leaves rank u m (sys_bind_runnable aid) m' = Hands u m aid sys_bind m'
Leaves rank u m (sys_unbind_runnable aid) m' = Hands u m aid sys_unbind m'
Leaves rank u m (sys_destroy_runnable aid) m' = Hands u m aid sys_destroy m'
Leaves rank u m _ m' = m' ≡ m

-- What a run comes to: steps of the automata, none of which fails an assertion on m_parameter, and a model that the invariant holds of again.
abbrev pub Runs : (rank : ℕ → ℕ) → User → Model → Runnable → Type 0
Runs rank u m r =
    (steps : List Step) × (m' : Model) × (run u m r ≡ done (steps, m'))
    × (all_set steps ≡ true)
    × Sound m'
    × Leaves rank u m r m'
