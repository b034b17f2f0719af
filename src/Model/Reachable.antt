-- ===== src/Model/Reachable.antt =====
-- Every model that the methods lead to from an empty one.
use ioa.Prelude.{ℕ, ◌<◌, ◌≡◌, refl, Option, some, length, arith, subst, sym, ◌∙◌}
use ioa.FinMap
use ioa.Executor.Bindings.{count_outputs}
use ioa.FinSet.{contains}
use ioa.Outcome.{Outcome, done}
use ioa.SequentialSet.{SequentialSet, limit}
use ioa.SequentialSet
use ioa.Event.{Action}
use ioa.AutomatonRecord.{Instance}
use ioa.Model.{Model, Status, init, create_root, create}
use ioa.Model.Bind
use ioa.Model.Destroy.{destroy_root, destroy}
use ioa.Model.Creators.{create_root_total, create_total}
use ioa.Model.Destroyers.{Outcomes, refused, destroys, destroy_root_total, destroy_total}
use ioa.Model.Binders.{Binds, refused, binds, bind_total}
use ioa.Model.Unbinding.{Unbinding, refused, unbinds, unbind_total}
use ioa.Model.Invariant.{Inv}

pub init-Inv : Inv (λ a. 0) init
unfolding init SequentialSet.init FinMap.lookup contains limit count_outputs
init-Inv = record {
  family = record {
    keyed = λ a r e. absurd (ground arith);
    upward = λ a p r e. absurd (ground arith);
    downward = λ p k a q e. absurd (ground arith);
    ranked = λ a p r e. absurd (ground arith);
  };
  registry = record {
    counter = omega arith;
    used = λ a. refl;
    listed = λ a r e. absurd (ground arith);
    distinct = λ a b r s e. absurd (ground arith);
    owned = λ i e. absurd (ground arith);
  };
  linked = record { wired = tt; balanced = λ b k. refl };
}

-- Any sequence of calls of the methods, none of which faults. The allocator of a created automaton
-- gives an instance, and there is an aid left.
pub data Reaches (start : Model) : Model → Type 0 where
  here : Reaches start start
  then_create_root :
      {m m' : Model} {result : Option ℕ} (i : Instance)
      → Reaches start m
      → length m.aids.used < limit
      → create_root m (some i) ≡ done (result, m')
      → Reaches start m'
  then_create :
      {m m' : Model} {result : Option ℕ} (creator : ℕ) (i : Instance) (key : ℕ)
      → Reaches start m
      → length m.aids.used < limit
      → create m creator (some i) key ≡ done (result, m')
      → Reaches start m'
  then_bind :
      {m m' : Model} {status : Status} (binder : ℕ) (output input : Action) (key : ℕ)
      → Reaches start m
      → Bind.bind m binder output input key ≡ done (status, m')
      → Reaches start m'
  then_unbind :
      {m m' : Model} {status : Status} (binder key : ℕ)
      → Reaches start m
      → Bind.unbind m binder key ≡ done (status, m')
      → Reaches start m'
  then_destroy_root :
      {m m' : Model} {status : Status} (aid : ℕ)
      → Reaches start m
      → destroy_root m aid ≡ done (status, m')
      → Reaches start m'
  then_destroy :
      {m m' : Model} {status : Status} (target key : ℕ)
      → Reaches start m
      → destroy m target key ≡ done (status, m')
      → Reaches start m'

abbrev pub Sound : Model → Type 0
Sound m = (rank : ℕ → ℕ) × Inv rank m

done-model :
    {A : Type 0} {a b : A} {m m' : Model}
    → ◌≡◌ {A = Outcome (A × Model)} (done (a, m)) (done (b, m'))
    → m ≡ m'
done-model e = ground arith

pub Binds-Sound :
    {rank : ℕ → ℕ} {m m' : Model} {binder key : ℕ} {output input : Action} {status : Status}
    → Binds rank m binder output input key m' status
    → Sound m'
Binds-Sound {rank} (refused a b v) = (rank, v)
Binds-Sound {rank} (binds n b) = (rank, b.inv)

pub Unbinding-Sound :
    {rank : ℕ → ℕ} {m m' : Model} {binder key : ℕ} {status : Status}
    → Unbinding rank m binder key m' status
    → Sound m'
Unbinding-Sound {rank} (refused a b c v) = (rank, v)
Unbinding-Sound {rank} (unbinds n b) = (rank, b.inv)

pub Outcomes-Sound :
    {rank : ℕ → ℕ} {m m' : Model} {target : Option ℕ} {status : Status}
    → Outcomes rank m m' target status
    → Sound m'
Outcomes-Sound {rank} (refused a v) = (rank, v)
Outcomes-Sound {rank} (destroys a e d) = (rank, d.inv)

-- The invariant holds of every model that the methods lead to from an empty one: the automata are a
-- forest in which parents and children name one another, the ids in use and the instances are
-- theirs, every binding has both its automata, and every bind key stands for exactly one binding.
pub init-reaches_Inv : {m : Model} → Reaches init m → (rank : ℕ → ℕ) × Inv rank m
init-reaches_Inv here = (_, init-Inv)
init-reaches_Inv (then_create_root {m} i r space e) =
    let (rank, v) = init-reaches_Inv r in
    let (result, m'', e', c) = create_root_total rank m i v space in
    subst Sound (done-model (sym e' ∙ e)) (c.rank', c.inv)
init-reaches_Inv (then_create {m} creator i key r space e) =
    let (rank, v) = init-reaches_Inv r in
    let (result, m'', e', c) = create_total rank m i v space creator key in
    subst Sound (done-model (sym e' ∙ e)) (c.rank', c.inv)
init-reaches_Inv (then_bind {m} binder output input key r e) =
    let (rank, v) = init-reaches_Inv r in
    let (status, m'', e', b) = bind_total rank m v binder output input key in
    subst Sound (done-model (sym e' ∙ e)) (Binds-Sound b)
init-reaches_Inv (then_unbind {m} binder key r e) =
    let (rank, v) = init-reaches_Inv r in
    let (status, m'', e', b) = unbind_total rank m binder key v in
    subst Sound (done-model (sym e' ∙ e)) (Unbinding-Sound b)
init-reaches_Inv (then_destroy_root {m} aid r e) =
    let (rank, v) = init-reaches_Inv r in
    let (status, m'', e', d) = destroy_root_total rank m v aid in
    subst Sound (done-model (sym e' ∙ e)) (Outcomes-Sound d)
init-reaches_Inv (then_destroy {m} target key r e) =
    let (rank, v) = init-reaches_Inv r in
    let (status, m'', e', d) = destroy_total rank m v target key in
    subst Sound (done-model (sym e' ∙ e)) (Outcomes-Sound d)
