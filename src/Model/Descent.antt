-- ===== src/Model/Descent.antt =====
-- The descendants of an automaton in a census of a model (lib/model.cpp), and those that are left when
-- others go.
use ioa.Prelude.{ℕ, ◌≡◌, ◌∙◌, Option, none, some, arith, Option-cases, inl, inr, ap, sym}
use ioa.AutomatonRecord.{AutomatonRecord}
use ioa.Model.Invariant.{Census, Family}

-- The automaton `a` and its descendants.
pub data Below (f : Census) (a : ℕ) : ℕ → Type 0 where
  itself : Below f a a
  child_of :
      {j p : ℕ} (s : AutomatonRecord) → f j ≡ some s → s.parent ≡ some p → Below f a p → Below f a j

-- Every automaton of one census is in another, under the same parent.
abbrev pub SameParents : Census → Census → Type 0
SameParents f' f =
    (j : ℕ) (s' : AutomatonRecord)
    → f' j ≡ some s'
    → (s : AutomatonRecord) × (f j ≡ some s) × (s'.parent ≡ s.parent)

pub Below-parents : {f' f : Census} {a j : ℕ} → SameParents f' f → Below f' a j → Below f a j
Below-parents h itself = itself
Below-parents h (child_of {j} s' e up b) =
    let (s, there, same) = h j s' e in child_of s there (sym same ∙ up) (Below-parents h b)

pub Below-trans : {f : Census} {a c j : ℕ} → Below f a c → Below f c j → Below f a j
Below-trans b itself = b
Below-trans b (child_of s e up d) = child_of s e up (Below-trans b d)

-- With an automaton go all its descendants, since those that stay have their parents.
pub Below-gone :
    {rank : ℕ → ℕ} {f' f : Census} {a j : ℕ}
    → Family rank f'
    → SameParents f' f
    → f' a ≡ none
    → Below f a j
    → f' j ≡ none
Below-gone v h gone itself = gone
Below-gone {f'} v h gone (child_of {j} {p} s e up b) = elim (Option-cases (f' j)) [
  | inl absent ↦ absent
  | inr (s', there) ↦
      let (t, at, same) = h j s' there in
      let equal : t ≡ s = some_inj (sym at ∙ e) in
      let (q, present, child) = v.upward j p s' there (same ∙ (ap (λ x. x.parent) equal ∙ up)) in
      let lost = Below-gone v h gone b in absurd (clash (sym lost ∙ present))
]
  where
    some_inj : {x y : AutomatonRecord} → some x ≡ some y → x ≡ y
    some_inj e = ground arith

    clash : {x : AutomatonRecord} → ◌≡◌ {A = Option AutomatonRecord} none (some x) → ⊥
    clash e = cc e
