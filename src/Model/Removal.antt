-- ===== src/Model/Removal.antt =====
-- The census after an automaton without children has left, and the family tree and the registry of
-- those that stay.
use ioa.Prelude.{
  ℕ, ◌≡◌, refl, ◌≢◌, ◌∙◌, sym, Bool, true, false, ◌&&◌, not, List, Option, none, some, arith, ◌==◌,
  if◌then◌else◌, is_some, Option-cases, inl, inr,
}
use ioa.FinSet.{contains-erase}
use ioa.FinSet
use ioa.FinMap.{lookup-erase}
use ioa.FinMap
use ioa.SequentialSet.{SequentialSet, replace}
use ioa.AutomatonRecord.{AutomatonRecord, remove_child}
use ioa.Model.Invariant.{Census, Family, Registry}

abbrev pub is_parent : Option ℕ → ℕ → Bool
is_parent none j = false
is_parent (some p) j = j == p

abbrev pub without : AutomatonRecord → Census → Census
without r f j =
    if j == r.aid
    then none
    else if is_parent r.parent j
    then FinMap.opt_map (remove_child r.key) (f j)
    else f j

-- An entry of the new census is one of the old, but that a child may be gone.
record Stays (r : AutomatonRecord) (j : ℕ) (s s' : AutomatonRecord) : Type 0 where
  aid : s'.aid ≡ s.aid
  parent : s'.parent ≡ s.parent
  key : s'.key ≡ s.key
  instance_of : s'.instance_of ≡ s.instance_of
  children :
      (k : ℕ)
      → FinMap.lookup k s'.children
        ≡ (if is_parent r.parent j && k == r.key then none else FinMap.lookup k s.children)

stays :
    (r s : AutomatonRecord) (j : ℕ) (b : Bool)
    → is_parent r.parent j ≡ b
    → Stays r j s (if b then remove_child r.key s else s)
unfolding remove_child
stays r s j true e = record {
  aid = refl;
  parent = refl;
  key = refl;
  instance_of = refl;
  children = λ k. rw e (lookup-erase k r.key s.children);
}
stays r s j false e = record {
  aid = refl;
  parent = refl;
  key = refl;
  instance_of = refl;
  children = λ k. rw e refl;
}

module _ (r : AutomatonRecord) (f : Census) where
  without_at :
      (j : ℕ) (s : AutomatonRecord)
      → f j ≡ some s
      → j ≢ r.aid
      → (s' : AutomatonRecord) × (without r f j ≡ some s') × Stays r j s s'
  without_at j s e ne = (
    if is_parent r.parent j then remove_child r.key s else s,
    ground arith,
    stays r s j (is_parent r.parent j) refl,
  )

  without_inv :
      (j : ℕ) (s' : AutomatonRecord)
      → without r f j ≡ some s'
      → (s : AutomatonRecord) × (f j ≡ some s) × (j ≢ r.aid) × Stays r j s s'
  without_inv j s' e = elim (Option-cases (f j)) [
    | inl absent ↦ absurd (ground arith)
    | inr (s, here) ↦
        let same : (if is_parent r.parent j then remove_child r.key s else s) ≡ s' = ground arith in
        (s, here, (λ out. ground arith), rw same at (stays r s j (is_parent r.parent j) refl))
  ]

pub without-parent :
    (r : AutomatonRecord) (f : Census) (j : ℕ) (s' : AutomatonRecord)
    → without r f j ≡ some s'
    → (s : AutomatonRecord) × (f j ≡ some s) × (s'.parent ≡ s.parent)
without-parent r f j s' e =
    let (s, here, ne, stay) = without_inv r f j s' e in (s, here, stay.parent)

module _ (rank : ℕ → ℕ) (r : AutomatonRecord) (f : Census) (here : f r.aid ≡ some r)
    (childless : (k : ℕ) → FinMap.lookup k r.children ≡ none) (v : Family rank f) where
  -- No other automaton is the child of its parent under the same key.
  other_child :
      (j p : ℕ) (s q : AutomatonRecord)
      → j ≢ r.aid
      → f p ≡ some q
      → FinMap.lookup s.key q.children ≡ some j
      → (is_parent r.parent p && s.key == r.key) ≡ false
  other_child j p s q ne at child = elim (Option-cases r.parent) [
    | inl e ↦ ground arith
    | inr (p', e) ↦ let (q', at', child') = v.upward r.aid p' r here e in ground arith
  ]

  pub Family-without : Family rank (without r f)
  Family-without = record {
    keyed = λ j s' e. let (s, at, ne, st) = without_inv r f j s' e in st.aid ∙ v.keyed j s at;
    upward = λ j p s' e ep.
        let (s, at, ne, st) = without_inv r f j s' e in
        let (q, at_p, child) = v.upward j p s at (sym st.parent ∙ ep) in
        let none_here = childless s.key in
        let (q', at_p', st_p) = without_at r f p q at_p (λ same. ground arith) in
        let free = other_child j p s q ne at_p child in
        (q', at_p', rw (st.key, st_p.children s.key, free) child);
    downward = λ p k j q' e child'.
        let (q, at_p, ne, st_p) = without_inv r f p q' e in
        let entry = st_p.children k in
        let child : FinMap.lookup k q.children ≡ some j = ground arith in
        let (s, at, parent, key) = v.downward p k j q at_p child in
        let (s', at', st) = without_at r f j s at (λ same. ground arith) in
        (s', at', st.parent ∙ parent, st.key ∙ key);
    ranked = λ j p s' e ep.
        let (s, at, ne, st) = without_inv r f j s' e in v.ranked j p s at (sym st.parent ∙ ep);
  }

pub is_some-without :
    (r : AutomatonRecord) (f : Census) (j : ℕ)
    → is_some (without r f j) ≡ (not (j == r.aid) && is_some (f j))
is_some-without r f j = elim (Option-cases (f j)) [
  | inl e ↦ ground arith
  | inr (s, e) ↦ ground arith
]

module _ (r : AutomatonRecord) (f : Census) (aids : SequentialSet) (instances : List ℕ)
    (here : f r.aid ≡ some r) (v : Registry f aids instances) where
  pub Registry-without :
      Registry (without r f) (replace aids r.aid) (FinSet.erase r.instance_of.address instances)
  unfolding replace
  Registry-without = record {
    counter = v.counter;
    used = λ j. ground (arith, contains-erase j r.aid aids.used, v.used j, is_some-without r f j);
    listed = λ j s' e.
        let (s, at, ne, st) = without_inv r f j s' e in
        ground (
          arith,
          st.instance_of,
          contains-erase s'.instance_of.address r.instance_of.address instances,
          v.listed j s at,
          v.distinct j r.aid s r at here,
        );
    distinct = λ i j s' t' ei ej same.
        let (s, at_i, ne_i, st) = without_inv r f i s' ei in
        let (t, at_j, ne_j, tt') = without_inv r f j t' ej in
        v.distinct i j s t at_i at_j (ground (arith, st.instance_of, tt'.instance_of));
    owned = λ i e.
        let inside = contains-erase i r.instance_of.address instances in
        let (a, s, at, address) = v.owned i (ground arith) in
        let (s', at', st) = without_at r f a s at (λ same. ground arith) in
        (a, s', at', ground (arith, st.instance_of));
  }
