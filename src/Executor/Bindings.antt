-- ===== src/Executor/Bindings.antt =====
-- The bindings that the executors of a list hold, counted by binder and key, and what the removal
-- of some of them does.
use ioa.Prelude.{
  ℕ, ◌+◌, ◌≡◌, refl, Bool, true, false, List, [], ◌∷◌, ◌++◌, none, arith, ◌==◌, if◌then◌else◌, All,
  Bool-cases, inl, inr, ltb,
}
use ioa.FinMap.{lookup, insert}
use ioa.FinMap
use mathlib.Core.List.{append_assoc}
use ioa.Event.{Action}
use ioa.Executor.{
  Binding, Output, Effect, destruct, bound_by, any_bound_by, touches, unbind_first, unbind_touched,
  destruct_all, unbind_automaton,
}

abbrev pub one : Bool → ℕ
one true = 1
one false = 0

-- How many records have that binder and key.
unfoldable pub count : ℕ → ℕ → List (ℕ × Binding) → ℕ
count binder key [] = 0
count binder key ((a, b) ∷ m) = one (bound_by binder key b) + count binder key m

unfoldable pub count_outputs : ℕ → ℕ → List Output → ℕ
unfolding count
count_outputs binder key [] = 0
count_outputs binder key (o ∷ os) = count binder key o.records + count_outputs binder key os

-- Records that are removed, each with the output that it belonged to.
unfoldable pub count_removed : ℕ → ℕ → List (Action × Binding) → ℕ
count_removed binder key [] = 0
count_removed binder key ((x, b) ∷ bs) = one (bound_by binder key b) + count_removed binder key bs

unfoldable pub destruct_each : List (Action × Binding) → List Effect
unfolding destruct
destruct_each [] = []
destruct_each ((x, b) ∷ bs) = destruct x b ++ destruct_each bs

pub destruct_each-append :
    (bs cs : List (Action × Binding))
    → destruct_each (bs ++ cs) ≡ destruct_each bs ++ destruct_each cs
unfolding destruct_each
destruct_each-append [] cs = refl
destruct_each-append ((x, b) ∷ bs) cs = rw (destruct_each-append bs cs, append_assoc)

pub count_removed-append :
    (binder key : ℕ) (bs cs : List (Action × Binding))
    → count_removed binder key (bs ++ cs)
      ≡ count_removed binder key bs + count_removed binder key cs
unfolding count_removed
count_removed-append binder key [] cs = omega arith
count_removed-append binder key (b ∷ bs) cs = omega (arith, count_removed-append binder key bs cs)

-- What `unbind_touched` takes out.
touched : Action → ℕ → List (ℕ × Binding) → List (Action × Binding)
touched x aid [] = []
touched x aid (e ∷ m) = if touches aid e then (x, e.1) ∷ touched x aid m else touched x aid m

all_of : Action → List (ℕ × Binding) → List (Action × Binding)
all_of x [] = []
all_of x (e ∷ m) = (x, e.1) ∷ all_of x m

unbind_touched-effects :
    (x : Action) (aid : ℕ) (m : List (ℕ × Binding))
    → (unbind_touched x aid m).1 ≡ destruct_each (touched x aid m)
unfolding unbind_touched touched destruct_each
unbind_touched-effects x aid [] = refl
unbind_touched-effects x aid ((a, b) ∷ m) = ground (arith, unbind_touched-effects x aid m)

unbind_touched-count :
    (binder key : ℕ) (x : Action) (aid : ℕ) (m : List (ℕ × Binding))
    → count binder key (unbind_touched x aid m).0 + count_removed binder key (touched x aid m)
      ≡ count binder key m
unfolding unbind_touched touched count count_removed
unbind_touched-count binder key x aid [] = omega arith
unbind_touched-count binder key x aid ((a, b) ∷ m) = elim (Bool-cases (touches aid (a, b))) [
  | inl e ↦ rw e (omega (arith, unbind_touched-count binder key x aid m))
  | inr e ↦ rw e (omega (arith, unbind_touched-count binder key x aid m))
]

destruct_all-each :
    (x : Action) (m : List (ℕ × Binding)) → destruct_all x m ≡ destruct_each (all_of x m)
unfolding destruct_all all_of destruct_each
destruct_all-each x [] = refl
destruct_all-each x ((a, b) ∷ m) = rw (destruct_all-each x m)

all_of-count :
    (binder key : ℕ) (x : Action) (m : List (ℕ × Binding))
    → count_removed binder key (all_of x m) ≡ count binder key m
unfolding all_of count count_removed
all_of-count binder key x [] = refl
all_of-count binder key x ((a, b) ∷ m) = omega (arith, all_of-count binder key x m)

-- What `unbind_automaton` takes out of an executor.
unfoldable pub lost : ℕ → Output → List (Action × Binding)
unfolding touched all_of
lost aid o =
    if aid == o.action.aid then all_of o.action o.records else touched o.action aid o.records

pub unbind_automaton-effects :
    (o : Output) (aid : ℕ) → (unbind_automaton o aid).1 ≡ destruct_each (lost aid o)
unfolding unbind_automaton lost
unbind_automaton-effects o aid =
    ground
      (arith, unbind_touched-effects o.action aid o.records, destruct_all-each o.action o.records)

pub unbind_automaton-count :
    (binder key : ℕ) (o : Output) (aid : ℕ)
    → count binder key (unbind_automaton o aid).0.records + count_removed binder key (lost aid o)
      ≡ count binder key o.records
unfolding unbind_automaton lost count
unbind_automaton-count binder key o aid = ground (
  arith,
  unbind_touched-count binder key o.action aid o.records,
  all_of-count binder key o.action o.records,
)

pub count-nil : (j k : ℕ) → count j k [] ≡ 0
unfolding count
count-nil j k = refl

count-place :
    (j k a : ℕ) (b : Binding) (m : List (ℕ × Binding))
    → count j k (FinMap.place a b m) ≡ count j k m + one (bound_by j k b)
unfolding count FinMap.place
count-place j k a b [] = omega arith
count-place j k a b ((i, c) ∷ m) = elim (Bool-cases (ltb a i)) [
  | inl e ↦ rw e (omega arith)
  | inr e ↦ let ih = count-place j k a b m in rw e (omega arith)
]

pub count-insert :
    (j k a : ℕ) (b : Binding) (m : List (ℕ × Binding))
    → lookup a m ≡ none
    → count j k (insert a b m) ≡ count j k m + one (bound_by j k b)
count-insert j k a b m h = rw (FinMap.insert_absent a b m h) (count-place j k a b m)

-- What `unbind` takes out of a list that has a record of that binder and key.
pub record Unbinds (x : Action) (binder key : ℕ) (m : List (ℕ × Binding))
    (r : List (ℕ × Binding) × List Effect) : Type 0 where
  pub binding : Binding
  pub bound_here : bound_by binder key binding ≡ true
  pub effects : r.1 ≡ destruct x binding
  pub counts : (j k : ℕ) → count j k r.0 + one (bound_by j k binding) ≡ count j k m

pub unbind_first-Unbinds :
    (x : Action) (binder key : ℕ) (m : List (ℕ × Binding))
    → any_bound_by binder key m ≡ true
    → Unbinds x binder key m (unbind_first x binder key m)
unfolding any_bound_by unbind_first count
unbind_first-Unbinds x binder key [] h = absurd (cc h)
unbind_first-Unbinds x binder key ((a, b) ∷ m) h = elim (Bool-cases (bound_by binder key b)) [
  | inl e ↦
      rw e (record { binding = b; bound_here = e; effects = refl; counts = λ j k. omega arith })
  | inr e ↦
      let u = unbind_first-Unbinds x binder key m (ground arith) in
      rw e (record {
        binding = u.binding;
        bound_here = u.bound_here;
        effects = u.effects;
        counts = λ j k. let ih = u.counts j k in omega arith;
      })
]

pub unbind_first-All {κ} :
    (P : ℕ × Binding → Type κ) (x : Action) (binder key : ℕ) (m : List (ℕ × Binding))
    → All P m
    → All P (unbind_first x binder key m).0
unfolding unbind_first
unbind_first-All P x binder key [] h = tt
unbind_first-All P x binder key ((a, b) ∷ m) h = elim (Bool-cases (bound_by binder key b)) [
  | inl e ↦ rw e h.1
  | inr e ↦ rw e (h.0, unbind_first-All P x binder key m h.1)
]
