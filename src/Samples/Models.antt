-- ===== src/Samples/Models.antt =====
-- The theorems on the model, at the small models.
use ioa.Prelude.{ℕ, ◌≡◌, Option, none, some, Bool, true, false, refl}
use ioa.Outcome.{Outcome, fault, done}
use ioa.FinSet.{contains}
use ioa.AutomatonRecord.{get_child}
use ioa.Model.{init, Model, Status, success, failure, create_root, create}
use ioa.Model.Bind
use ioa.Model.Destroy.{clear, destroy, destroy_root}
use ioa.Model.Invariant.{Inv}
use ioa.Model.Reachable.{init-reaches_Inv}
use ioa.Model.Clearing.{IsCleared, clear_total}
use ioa.Model.Destroyers.{Outcomes, destroy_total, destroy_root_total}
use ioa.Model.Binders.{Binds, bind_total}
use ioa.Model.Unbinding.{Unbinding, unbind_total}
use ioa.Model.Creators.{Created, create_total, create_root_total}
use ioa.Samples.{
  bound, bound_reached, bound_Inv, bound_space, rank, instance_at, action_of, output, input,
}

init-reaches_Inv_example : (rank : ℕ → ℕ) × Inv rank bound
init-reaches_Inv_example = init-reaches_Inv bound_reached

clear_total_example : (m' : Model) × (clear bound ≡ done m') × IsCleared m'
clear_total_example = clear_total rank bound bound_Inv.1

destroy_total_example :
    (status : Status) × (m' : Model) × (destroy bound 1 7 ≡ done (status, m'))
    × Outcomes rank bound m' (some 3) status
unfolding init create_root create Bind.bind get_child
destroy_total_example = destroy_total rank bound bound_Inv.1 1 7

destroy_root_total_example :
    (status : Status) × (m' : Model) × (destroy_root bound 1 ≡ done (status, m'))
    × Outcomes rank bound m' (some 1) status
unfolding init create_root create Bind.bind contains
destroy_root_total_example = destroy_root_total rank bound bound_Inv.1 1

abbrev is_success : Outcome (Status × Model) → Bool
is_success fault = false
is_success (done (success, m)) = true
is_success (done (failure, m)) = false

-- The call succeeds, and one for the input that is bound already does not.
bind_total_example :
    ((status : Status) × (m' : Model) × (Bind.bind bound 1 output (action_of 3 60) 11
        ≡ done (status, m'))
      × Binds rank bound 1 output (action_of 3 60) 11 m' status)
    × (is_success (Bind.bind bound 1 output (action_of 3 60) 11) ≡ true)
    × (is_success (Bind.bind bound 1 (action_of 3 60) input 11) ≡ false)
unfolding init create_root create Bind.bind contains
bind_total_example = (bind_total rank bound bound_Inv.1 1 output (action_of 3 60) 11, refl, refl)

unbind_total_example :
    (status : Status) × (m' : Model) × (Bind.unbind bound 3 9 ≡ done (status, m'))
    × Unbinding rank bound 3 9 m' status
unbind_total_example = unbind_total rank bound 3 9 bound_Inv.1

create_total_example :
    (result : Option ℕ) × (m' : Model) × (create bound 2 (some (instance_at 400)) 8
      ≡ done (result, m'))
    × Created rank bound (some 2) (instance_at 400) 8 result m'
create_total_example = create_total rank bound (instance_at 400) bound_Inv.1 bound_space 2 8

create_root_total_example :
    (result : Option ℕ) × (m' : Model) × (create_root bound (some (instance_at 400))
      ≡ done (result, m'))
    × Created rank bound none (instance_at 400) 0 result m'
create_root_total_example = create_root_total rank bound (instance_at 400) bound_Inv.1 bound_space
