-- ===== src/Model/Addition.antt =====
-- The census after a new automaton has come, with or without a parent, and the family tree and the
-- registry with it.
use ioa.Prelude.{
  ℕ, suc, ◌<◌, ◌≡◌, refl, ◌≢◌, ◌∙◌, sym, ◌⊎◌, Bool, true, false, ◌&&◌, ◌||◌, List, Option, none,
  some, arith, ◌==◌, if◌then◌else◌, is_some, Bool-cases, Option-cases, inl, inr, All-map,
}
use ioa.FinSet.{contains-insert}
use ioa.FinSet
use ioa.FinMap.{lookup-insert}
use ioa.FinMap
use ioa.SequentialSet.{SequentialSet, limit, has}
use ioa.AutomatonRecord.{AutomatonRecord, add_child}
use ioa.Executor.{Binding, Output}
use ioa.Model.Invariant.{Census, Family, Registry, IsSound, IsWired}
use ioa.Model.Removal.{is_parent}

abbrev pub with_child : AutomatonRecord → Census → Census
with_child c f j =
    if j == c.aid
    then some c
    else if is_parent c.parent j
    then FinMap.opt_map (add_child c.key c.aid) (f j)
    else f j

abbrev child_rank : (ℕ → ℕ) → Option ℕ → ℕ
child_rank rank none = 0
child_rank rank (some p) = suc (rank p)

-- The rank of the new automaton is one more than its parent's.
abbrev pub rank_with : (ℕ → ℕ) → AutomatonRecord → ℕ → ℕ
rank_with rank c j = if j == c.aid then child_rank rank c.parent else rank j

-- An old entry in the new census.
record Gains (c : AutomatonRecord) (j : ℕ) (s s' : AutomatonRecord) : Type 0 where
  aid : s'.aid ≡ s.aid
  parent : s'.parent ≡ s.parent
  key : s'.key ≡ s.key
  instance_of : s'.instance_of ≡ s.instance_of
  children :
      (k : ℕ)
      → FinMap.lookup k s'.children
        ≡ (if is_parent c.parent j && k == c.key then some c.aid else FinMap.lookup k s.children)

-- What the parent's method and the scheduler's may count on: the aid is new, and so is the key.
pub record IsNew (c : AutomatonRecord) (f : Census) : Type 0 where
  pub fresh : f c.aid ≡ none
  pub childless : (k : ℕ) → FinMap.lookup k c.children ≡ none
  pub parent_there : (p : ℕ) → c.parent ≡ some p → is_some (f p) ≡ true
  pub free :
      (p : ℕ) (q : AutomatonRecord)
      → c.parent ≡ some p
      → f p ≡ some q
      → FinMap.lookup c.key q.children ≡ none

module _ (c : AutomatonRecord) (f : Census) (new : IsNew c f) where
  key_free :
      (j : ℕ) (s : AutomatonRecord)
      → f j ≡ some s
      → is_parent c.parent j ≡ true
      → FinMap.lookup c.key s.children ≡ none
  key_free j s at e = elim (Option-cases c.parent) [
    | inl none_there ↦ absurd (ground arith)
    | inr (p, there) ↦ new.free j s (ground arith) at
  ]

  gains :
      (s : AutomatonRecord) (j : ℕ) (b : Bool)
      → f j ≡ some s
      → is_parent c.parent j ≡ b
      → Gains c j s (if b then add_child c.key c.aid s else s)
  unfolding add_child
  gains s j true at e = record {
    aid = refl;
    parent = refl;
    key = refl;
    instance_of = refl;
    children = λ k. rw (e, lookup-insert k c.key c.aid s.children (key_free j s at e)) refl;
  }
  gains s j false at e = record {
    aid = refl;
    parent = refl;
    key = refl;
    instance_of = refl;
    children = λ k. rw e refl;
  }

  not_new : (j : ℕ) (s : AutomatonRecord) → f j ≡ some s → j ≢ c.aid
  not_new j s at e = let free = new.fresh in ground arith

  with_at :
      (j : ℕ) (s : AutomatonRecord)
      → f j ≡ some s
      → (s' : AutomatonRecord) × (with_child c f j ≡ some s') × Gains c j s s'
  with_at j s at = (
    if is_parent c.parent j then add_child c.key c.aid s else s,
    (let ne = not_new j s at in ground arith),
    gains s j (is_parent c.parent j) at refl,
  )

  with_inv :
      (j : ℕ) (s' : AutomatonRecord)
      → with_child c f j ≡ some s'
      → ((j ≡ c.aid) × (s' ≡ c)) ⊎ ((s : AutomatonRecord) × (f j ≡ some s) × Gains c j s s')
  with_inv j s' e = elim (Bool-cases (j == c.aid)) [
    | inl here ↦ inl (ground arith, ground arith)
    | inr other ↦ elim (Option-cases (f j)) [
      | inl absent ↦ absurd (ground arith)
      | inr (s, at) ↦
          let same : (if is_parent c.parent j then add_child c.key c.aid s else s) ≡ s' =
            ground arith in
          inr (s, at, rw same at (gains s j (is_parent c.parent j) at refl))
    ]
  ]

  new_here : with_child c f c.aid ≡ some c
  new_here = ground arith

  parent_found : (p : ℕ) → c.parent ≡ some p → (q : AutomatonRecord) × (f p ≡ some q)
  parent_found p e = elim (Option-cases (f p)) [
    | inl absent ↦ absurd (let there = new.parent_there p e in ground arith)
    | inr found ↦ found
  ]

module _ (rank : ℕ → ℕ) (c : AutomatonRecord) (f : Census) (new : IsNew c f)
    (v : Family rank f) where
  old_key :
      (j p : ℕ) (s q : AutomatonRecord)
      → f p ≡ some q
      → FinMap.lookup s.key q.children ≡ some j
      → (is_parent c.parent p && s.key == c.key) ≡ false
  old_key j p s q at child = elim (Option-cases c.parent) [
    | inl e ↦ ground arith
    | inr (p', e) ↦ elim (Bool-cases (p == p' && s.key == c.key)) [
      | inl both ↦ absurd (let free = new.free p q (ground arith) at in ground arith)
      | inr other ↦ ground arith
    ]
  ]

  pub Family-with : Family (rank_with rank c) (with_child c f)
  Family-with = record {
    keyed = λ j s' e. elim (with_inv c f new j s' e) [
      | inl (here, same) ↦ ground arith
      | inr (s, at, g) ↦ g.aid ∙ v.keyed j s at
    ];
    upward = λ j p s' e ep. elim (with_inv c f new j s' e) [
      | inl (here, same) ↦
          let (q, at) = parent_found c f new p (ground arith) in
          let (q', at', g) = with_at c f new p q at in
          let entry = g.children s'.key in (q', at', ground arith)
      | inr (s, at, g) ↦
          let (q, at_p, child) = v.upward j p s at (sym g.parent ∙ ep) in
          let (q', at_p', g_p) = with_at c f new p q at_p in
          let old = old_key j p s q at_p child in
          let entry = g_p.children s.key in (q', at_p', ground (arith, g.key))
    ];
    downward = λ p k j q' e child'. elim (with_inv c f new p q' e) [
      | inl (here, same) ↦ absurd (let none_there = new.childless k in ground arith)
      | inr (q, at_p, g_p) ↦
          let entry = g_p.children k in
          elim (Bool-cases (is_parent c.parent p && k == c.key)) [
            | inl mine ↦
                (c, (let here = new_here c f new in ground arith), parent_of p k mine, ground arith)
            | inr other ↦
                let (s, at, parent, key) = v.downward p k j q at_p (ground arith) in
                let (s', at', g) = with_at c f new j s at in
                (s', at', g.parent ∙ parent, g.key ∙ key)
          ]
    ];
    ranked = λ j p s' e ep. elim (with_inv c f new j s' e) [
      | inl (here, same) ↦
          let (q, at) = parent_found c f new p (ground arith) in
          let ne = not_new c f new p q at in
          let parent : c.parent ≡ some p = ground arith in rank_new p ne parent j here
      | inr (s, at, g) ↦
          let up : s.parent ≡ some p = sym g.parent ∙ ep in
          let (q, at_p, child) = v.upward j p s at up in
          let ne_j = not_new c f new j s at in
          let ne_p = not_new c f new p q at_p in let lt = v.ranked j p s at up in ground arith
    ];
  }
    where
      parent_of : (p k : ℕ) → (is_parent c.parent p && k == c.key) ≡ true → c.parent ≡ some p
      parent_of p k e = elim (Option-cases c.parent) [
        | inl none_there ↦ absurd (ground arith)
        | inr (p', there) ↦ ground arith
      ]

      rank_new :
          (p : ℕ)
          → p ≢ c.aid
          → c.parent ≡ some p
          → (j : ℕ) → j ≡ c.aid
          → rank_with rank c p < rank_with rank c j
      rank_new p ne e j here = ground arith

module _ (c : AutomatonRecord) (f : Census) (new : IsNew c f) where
  pub is_some-with : (j : ℕ) → is_some (with_child c f j) ≡ (j == c.aid || is_some (f j))
  is_some-with j = elim (Option-cases (f j)) [ inl e ↦ ground arith | inr (s, e) ↦ ground arith ]

  pub Registry-with :
      (aids aids' : SequentialSet) (instances : List ℕ)
      → aids'.counter < limit
      → ((b : ℕ) → has aids' b ≡ (b == c.aid || has aids b))
      → FinSet.contains c.instance_of.address instances ≡ false
      → Registry f aids instances
      → Registry (with_child c f) aids' (FinSet.insert c.instance_of.address instances)
  Registry-with aids aids' instances lt members unused v = record {
    counter = lt;
    used = λ j. ground (arith, members j, v.used j, is_some-with j);
    listed = λ j s' e.
        let inside = contains-insert s'.instance_of.address c.instance_of.address instances in
        elim (with_inv c f new j s' e) [
          | inl (here, same) ↦ ground arith
          | inr (s, at, g) ↦ ground (arith, g.instance_of, v.listed j s at)
        ];
    distinct = λ i j s' t' ei ej same. elim (with_inv c f new i s' ei) [
      | inl (here, is_c) ↦ elim (with_inv c f new j t' ej) [
        | inl (here', is_c') ↦ ground arith
        | inr (t, at, g) ↦
            absurd (let old = v.listed j t at in let i_of = g.instance_of in ground arith)
      ]
      | inr (s, at_i, g) ↦ elim (with_inv c f new j t' ej) [
        | inl (here', is_c') ↦
            absurd (let old = v.listed i s at_i in let i_of = g.instance_of in ground arith)
        | inr (t, at_j, g') ↦
            v.distinct i j s t at_i at_j (ground (arith, g.instance_of, g'.instance_of))
      ]
    ];
    owned = λ i e.
        let inside = contains-insert i c.instance_of.address instances in
        elim (Bool-cases (i == c.instance_of.address)) [
          | inl own ↦ (c.aid, c, new_here c f new, ground arith)
          | inr other ↦
              let (a, s, at, address) = v.owned i (ground arith) in
              let (s', at', g) = with_at c f new a s at in
              (a, s', at', ground (arith, g.instance_of))
        ];
  }

-- Executors stay wired where no automaton leaves.
module _ (f g : Census) (more : (j : ℕ) → is_some (f j) ≡ true → is_some (g j) ≡ true) where
  pub IsSound-mono : (output : ℕ) (e : ℕ × Binding) → IsSound f output e → IsSound g output e
  IsSound-mono output e h = record {
    place = h.place;
    input_alive = more e.0 h.input_alive;
    not_output = h.not_output;
  }

  pub IsWired-mono : (o : Output) → IsWired f o → IsWired g o
  IsWired-mono o h = record {
    output_alive = more o.action.aid h.output_alive;
    bound = h.bound;
    sound =
        All-map (IsSound f o.action.aid) (IsSound g o.action.aid) (IsSound-mono o.action.aid)
          o.records h.sound;
  }
