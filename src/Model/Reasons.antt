-- ===== src/Model/Reasons.antt =====
-- The reasons for which `bind` of lib/model.cpp refuses two actions, read off the bindings that there
-- are and not from the order of the tests.
use ioa.Prelude.{
  ℕ, ◌≡◌, Bool, true, false, ◌||◌, List, [], ◌∷◌, Option, none, some, arith, ◌==◌, Bool-cases,
  Option-cases, inl, inr,
}
use ioa.FinMap
use ioa.Event.{
  Action, BoundResult, output_automaton_dne, input_automaton_dne, binding_exists,
  input_action_unavailable, output_action_unavailable,
}
use ioa.Executor.{Binding, Output, same, involves_input, involves_input_automaton, involves_binding}
use ioa.AutomatonRecord.{AutomatonRecord}
use ioa.Model.{Model, record_of}
use ioa.Model.Bind.{
  refusal, fetch_instance, find_if, any_output, binding_equal, binding_output_equal,
  binding_input_equal, has_input_automaton,
}

-- Some executor of a list satisfies `P`.
pub data Some (P : Output → Type 0) : List Output → Type 0 where
  at_head : {o : Output} {os : List Output} → P o → Some P (o ∷ os)
  in_tail : {o : Output} {os : List Output} → Some P os → Some P (o ∷ os)

-- The action's automaton is there, with an instance of the class that the action is of.
abbrev pub IsRunning : Model → Action → Type 0
IsRunning m x =
    (r : AutomatonRecord) × (record_of x.aid m ≡ some r) × (r.instance_of.is_a x.class ≡ true)

-- The executor has a record of the input.
abbrev pub Feeds : Action → Output → Type 0
Feeds input o =
    (b : Binding) × (FinMap.lookup input.aid o.records ≡ some b) × (same b.input input ≡ true)

-- The executor is the output's, and has a record of the input made by the binder.
abbrev pub FeedsFor : Action → Action → ℕ → Output → Type 0
FeedsFor output input binder o =
    (same o.action output ≡ true)
    × (b : Binding) × (FinMap.lookup input.aid o.records ≡ some b)
    × (same b.input input ≡ true)
    × (b.binder ≡ binder)

-- The output's executor has a record of the input's automaton.
abbrev pub IsBusy : Model → Action → ℕ → Type 0
IsBusy m output aid =
    (o : Output) × (find_if (binding_output_equal output) m.bindings ≡ some o)
    × (b : Binding) × (FinMap.lookup aid o.records ≡ some b)

-- A reason, by the result that is reported for it. The binder's own binding of the two actions is
-- reported as such, and not as one of the input.
pub data Reason (m : Model) (output input : Action) (binder : ℕ) : BoundResult → Type 0 where
  no_output : ¬ IsRunning m output → Reason m output input binder output_automaton_dne
  no_input : ¬ IsRunning m input → Reason m output input binder input_automaton_dne
  is_made :
      Some (FeedsFor output input binder) m.bindings → Reason m output input binder binding_exists
  is_taken :
      Some (Feeds input) m.bindings
      → ¬ Some (FeedsFor output input binder) m.bindings
      → Reason m output input binder input_action_unavailable
  same_automaton : output.aid ≡ input.aid → Reason m output input binder output_action_unavailable
  is_busy : IsBusy m output input.aid → Reason m output input binder output_action_unavailable

module _ (p : Output → Bool) (P : Output → Type 0) where
  any_output-Some :
      ((o : Output) → p o ≡ true → P o) → (os : List Output) → any_output p os ≡ true → Some P os
  unfolding any_output find_if
  any_output-Some f [] e = absurd (ground arith)
  any_output-Some f (o ∷ os) e = elim (Bool-cases (p o)) [
    | inl hit ↦ at_head (f o hit)
    | inr miss ↦ in_tail (any_output-Some f os (ground arith))
  ]

  Some-any_output :
      ((o : Output) → P o → p o ≡ true) → {os : List Output} → Some P os → any_output p os ≡ true
  unfolding any_output find_if
  Some-any_output f (at_head {o} h) = let hit = f o h in ground arith
  Some-any_output f (in_tail {o} {os} s) = let rest = Some-any_output f s in ground arith

module _ (m : Model) (output input : Action) (binder : ℕ) where
  fetch_instance-IsRunning : (x : Action) → fetch_instance m x ≡ true → IsRunning m x
  unfolding fetch_instance
  fetch_instance-IsRunning x e = elim (Option-cases (record_of x.aid m)) [
    | inl absent ↦ absurd (ground arith)
    | inr (r, there) ↦ (r, there, ground arith)
  ]

  IsRunning-fetch_instance : (x : Action) → IsRunning m x → fetch_instance m x ≡ true
  unfolding fetch_instance
  IsRunning-fetch_instance x (r, there, e) = ground arith

  input-Feeds : (o : Output) → involves_input o input ≡ true → Feeds input o
  unfolding involves_input
  input-Feeds o e = elim (Option-cases (FinMap.lookup input.aid o.records)) [
    | inl absent ↦ absurd (ground arith)
    | inr (b, there) ↦ (b, there, ground arith)
  ]

  Feeds-input : (o : Output) → Feeds input o → involves_input o input ≡ true
  unfolding involves_input
  Feeds-input o (b, there, e) = ground arith

  binding-FeedsFor :
      (o : Output) → involves_binding o output input binder ≡ true → FeedsFor output input binder o
  unfolding involves_binding
  binding-FeedsFor o e = elim (Option-cases (FinMap.lookup input.aid o.records)) [
    | inl absent ↦ absurd (ground arith)
    | inr (b, there) ↦ (ground arith, b, there, ground arith, ground arith)
  ]

  FeedsFor-binding :
      (o : Output) → FeedsFor output input binder o → involves_binding o output input binder ≡ true
  unfolding involves_binding
  FeedsFor-binding o (own, b, there, e, by) = ground arith

  abbrev busy : Bool
  busy = has_input_automaton input.aid (find_if (binding_output_equal output) m.bindings)

  busy-IsBusy : busy ≡ true → IsBusy m output input.aid
  unfolding involves_input_automaton
  busy-IsBusy e = elim (Option-cases (find_if (binding_output_equal output) m.bindings)) [
    | inl absent ↦ absurd (ground arith)
    | inr (o, found) ↦ elim (Option-cases (FinMap.lookup input.aid o.records)) [
      | inl free ↦ absurd (ground arith)
      | inr (b, there) ↦ (o, found, b, there)
    ]
  ]

  IsBusy-busy : IsBusy m output input.aid → busy ≡ true
  unfolding involves_input_automaton
  IsBusy-busy (o, found, b, there) = ground arith

  any-Made :
      any_output (binding_equal output input binder) m.bindings ≡ true
      → Some (FeedsFor output input binder) m.bindings
  any-Made e =
      any_output-Some (binding_equal output input binder) (FeedsFor output input binder)
        binding-FeedsFor m.bindings e

  any-Taken :
      any_output (binding_input_equal input) m.bindings ≡ true → Some (Feeds input) m.bindings
  any-Taken e = any_output-Some (binding_input_equal input) (Feeds input) input-Feeds m.bindings e

  Taken-any :
      Some (Feeds input) m.bindings → any_output (binding_input_equal input) m.bindings ≡ true
  Taken-any s = Some-any_output (binding_input_equal input) (Feeds input) Feeds-input s

  Made-any :
      Some (FeedsFor output input binder) m.bindings
      → any_output (binding_equal output input binder) m.bindings ≡ true
  Made-any s =
      Some-any_output (binding_equal output input binder) (FeedsFor output input binder)
        FeedsFor-binding s

  -- What the tests report has that reason, and with nothing to report there is none.
  abbrev pub IsToldWhy : Option BoundResult → Type 0
  IsToldWhy none = (r : BoundResult) → ¬ Reason m output input binder r
  IsToldWhy (some r) = Reason m output input binder r

  nothing-IsToldWhy :
      fetch_instance m output ≡ true
      → fetch_instance m input ≡ true
      → any_output (binding_equal output input binder) m.bindings ≡ false
      → any_output (binding_input_equal input) m.bindings ≡ false
      → (output.aid == input.aid || busy) ≡ false
      → IsToldWhy none
  nothing-IsToldWhy out inp made taken free _ (no_output h) =
      h (fetch_instance-IsRunning output out)
  nothing-IsToldWhy out inp made taken free _ (no_input h) = h (fetch_instance-IsRunning input inp)
  nothing-IsToldWhy out inp made taken free _ (is_made s) = let a = Made-any s in ground arith
  nothing-IsToldWhy out inp made taken free _ (is_taken s h) = let a = Taken-any s in ground arith
  nothing-IsToldWhy out inp made taken free _ (same_automaton e) = ground arith
  nothing-IsToldWhy out inp made taken free _ (is_busy b) = let a = IsBusy-busy b in ground arith

  unavailable-IsToldWhy :
      (output.aid == input.aid || busy) ≡ true → IsToldWhy (some output_action_unavailable)
  unavailable-IsToldWhy e = elim (Bool-cases busy) [
    | inl b ↦ is_busy (busy-IsBusy b)
    | inr b ↦ same_automaton (ground arith)
  ]

  pub refusal-IsToldWhy : IsToldWhy (refusal m output input binder)
  unfolding refusal
  refusal-IsToldWhy = elim (Bool-cases (fetch_instance m output)) [
    | inr miss ↦
        rw miss (no_output (λ run. let a = IsRunning-fetch_instance output run in ground arith))
    | inl out ↦ rw out (elim (Bool-cases (fetch_instance m input)) [
      | inr miss ↦
          rw miss (no_input (λ run. let a = IsRunning-fetch_instance input run in ground arith))
      | inl inp ↦
          rw inp (elim (Bool-cases (any_output (binding_equal output input binder) m.bindings)) [
            | inl made ↦ rw made (is_made (any-Made made))
            | inr made ↦
                rw made (elim (Bool-cases (any_output (binding_input_equal input) m.bindings)) [
                  | inl taken ↦
                      rw taken
                        (is_taken (any-Taken taken) (λ s. let a = Made-any s in ground arith))
                  | inr taken ↦ rw taken (elim (Bool-cases (output.aid == input.aid || busy)) [
                    | inl e ↦ rw e (unavailable-IsToldWhy e)
                    | inr e ↦ rw e (nothing-IsToldWhy out inp made taken e)
                  ])
                ])
          ])
    ])
  ]
