-- ===== src/Model/Unwiring.antt =====
-- The loop of `inner_destroy` (lib/model.cpp) over the executors, and the bindings it leaves.
use ioa.Prelude.{
  ℕ, ◌+◌, ◌≡◌, refl, ◌≢◌, true, false, List, [], ◌∷◌, ◌++◌, arith, ◌==◌, All, is_some, length,
  Bool-cases, inl, inr,
}
use ioa.Event.{Action}
use ioa.Executor.{Binding, Output, touches, unbind_touched, unbind_automaton, is_empty}
use ioa.Executor.Bindings.{
  count, count_outputs, count_removed, destruct_each, lost, unbind_automaton-effects,
  unbind_automaton-count, destruct_each-append, count_removed-append,
}
use ioa.Model.Invariant.{Census, IsSound, IsWired}
use ioa.Model.Destroy.{unbind_outputs}

pub lost_outputs : ℕ → List Output → List (Action × Binding)
lost_outputs aid [] = []
lost_outputs aid (o ∷ os) = lost aid o ++ lost_outputs aid os

pub unbind_outputs-effects :
    (aid : ℕ) (os : List Output) → (unbind_outputs aid os).1 ≡ destruct_each (lost_outputs aid os)
unfolding unbind_outputs lost_outputs destruct_each
unbind_outputs-effects aid [] = refl
unbind_outputs-effects aid (o ∷ os) = rw (
  destruct_each-append (lost aid o) (lost_outputs aid os),
  unbind_automaton-effects o aid,
  unbind_outputs-effects aid os,
)

count-empty : (j k : ℕ) (o : Output) → is_empty o ≡ true → count j k o.records ≡ 0
unfolding is_empty
count-empty j k o h = nil o.records h
  where
    nil : (m : List (ℕ × Binding)) → (length m == 0) ≡ true → count j k m ≡ 0
    nil [] e = unfold count in refl
    nil (x ∷ m) e = absurd (ground arith)

pub unbind_outputs-count :
    (j k aid : ℕ) (os : List Output)
    → count_outputs j k (unbind_outputs aid os).0 + count_removed j k (lost_outputs aid os)
      ≡ count_outputs j k os
unfolding unbind_outputs lost_outputs count_outputs
unbind_outputs-count j k aid [] = unfold count_removed in refl
unbind_outputs-count j k aid (o ∷ os) = ground (
  arith,
  count_removed-append j k (lost aid o) (lost_outputs aid os),
  unbind_automaton-count j k o aid,
  unbind_outputs-count j k aid os,
  count-empty j k (unbind_automaton o aid).0,
)

-- No record made by the automaton is left.
unbind_touched-none :
    (k aid : ℕ) (x : Action) (m : List (ℕ × Binding)) → count aid k (unbind_touched x aid m).0 ≡ 0
unfolding unbind_touched count
unbind_touched-none k aid x [] = refl
unbind_touched-none k aid x ((a, b) ∷ m) = elim (Bool-cases (touches aid (a, b))) [
  | inl e ↦ rw e (unbind_touched-none k aid x m)
  | inr e ↦ rw e (ground (arith, unbind_touched-none k aid x m))
]

unbind_automaton-none :
    (k aid : ℕ) (o : Output) → count aid k (unbind_automaton o aid).0.records ≡ 0
unfolding unbind_automaton count
unbind_automaton-none k aid o = ground (arith, unbind_touched-none k aid o.action o.records)

pub unbind_outputs-none :
    (k aid : ℕ) (os : List Output) → count_outputs aid k (unbind_outputs aid os).0 ≡ 0
unfolding unbind_outputs count_outputs
unbind_outputs-none k aid [] = refl
unbind_outputs-none k aid (o ∷ os) =
    ground (arith, unbind_automaton-none k aid o, unbind_outputs-none k aid os)

-- What is left stays sound when the automaton is gone.
module _ (f g : Census) (aid : ℕ)
    (gone : (j : ℕ) → j ≢ aid → is_some (f j) ≡ true → is_some (g j) ≡ true) where
  unbind_touched-IsSound :
      (output : ℕ) (x : Action) (m : List (ℕ × Binding))
      → All (IsSound f output) m
      → All (IsSound g output) (unbind_touched x aid m).0
  unfolding unbind_touched
  unbind_touched-IsSound output x [] h = tt
  unbind_touched-IsSound output x ((a, b) ∷ m) h = elim (Bool-cases (touches aid (a, b))) [
    | inl e ↦ rw e (unbind_touched-IsSound output x m h.1)
    | inr e ↦ rw e (
      record {
        place = h.0.place;
        input_alive = gone a (λ same. ground arith) h.0.input_alive;
        not_output = h.0.not_output;
      },
      unbind_touched-IsSound output x m h.1,
    )
  ]

  unbind_automaton-IsWired :
      (o : Output)
      → IsWired f o
      → is_empty (unbind_automaton o aid).0 ≡ false
      → IsWired g (unbind_automaton o aid).0
  unfolding unbind_automaton is_empty
  unbind_automaton-IsWired o w e = elim (Bool-cases (aid == o.action.aid)) [
    | inl same ↦ absurd (ground arith)
    | inr other ↦ rw other (record {
      output_alive = gone o.action.aid (λ same. ground arith) w.output_alive;
      bound = λ nil. ground arith;
      sound = unbind_touched-IsSound o.action.aid o.action o.records w.sound;
    })
  ]

  pub unbind_outputs-IsWired :
      (os : List Output) → All (IsWired f) os → All (IsWired g) (unbind_outputs aid os).0
  unfolding unbind_outputs
  unbind_outputs-IsWired [] h = tt
  unbind_outputs-IsWired (o ∷ os) h = elim (Bool-cases (is_empty (unbind_automaton o aid).0)) [
    | inl e ↦ rw e (unbind_outputs-IsWired os h.1)
    | inr e ↦ rw e (unbind_automaton-IsWired o h.0 e, unbind_outputs-IsWired os h.1)
  ]
