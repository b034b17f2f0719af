-- ===== src/Model/Termination.antt =====
-- The recursion of `inner_destroy` of lib/model.cpp and its fuel.
use ioa.Prelude.{
  ℕ, zero, suc, ◌≤◌, ◌<◌, ◌≡◌, refl, ◌≢◌, ◌∙◌, Bool, true, List, [], ◌∷◌, sym, none, some, arith,
  ltb, is_some, Option-cases, inl, inr, ap,
}
use ioa.FinMap.{count_keys, count_keys-lt, count_keys-le_length}
use ioa.FinMap
use ioa.Outcome.{done}
use ioa.AutomatonRecord.{AutomatonRecord, first, get_first_child}
use ioa.Model.{Model, record_of}
use ioa.Model.Invariant.{census, bare, Inv}
use ioa.Model.Descent.{Below, itself, child_of, SameParents, Below-parents, Below-trans, Below-gone}
use ioa.Model.Effects.{destruct_all_keys}
use ioa.Model.Unwiring.{lost_outputs, unbind_outputs-effects}
use ioa.Model.Removal.{is_some-without, without-parent}
use ioa.Model.Destruction.{
  Removed, census-record, record-census, disown_done, covered, parent_there, forget-Removed,
  unwired,
}
use ioa.Model.Destroy.{remove_record, inner_destroy, enough, forget}

-- The automata of a greater rank than `n`.
abbrev pub above : (ℕ → ℕ) → ℕ → ℕ → Bool
above rank n j = ltb n (rank j)

-- What a destruction that returns leaves behind.
pub record Destroys (rank : ℕ → ℕ) (a : ℕ) (m m' : Model) : Type 0 where
  pub inv : Inv rank m'
  pub gone : record_of a m' ≡ none
  pub kept : (j : ℕ) → rank j ≤ rank a → j ≢ a → is_some (census m' j) ≡ is_some (census m j)
  pub no_new : (j : ℕ) → is_some (census m' j) ≡ true → is_some (census m j) ≡ true
  pub parents : SameParents (census m') (census m)
  pub all : (j : ℕ) → Below (census m) a j → census m' j ≡ none
  pub only : (j : ℕ) → is_some (census m j) ≡ true → census m' j ≡ none → Below (census m) a j
  pub fewer :
      (n : ℕ)
      → n < rank a
      → count_keys (above rank n) m'.records < count_keys (above rank n) m.records
  pub less : count_keys (λ _. true) m'.records < count_keys (λ _. true) m.records

module _ (rank : ℕ → ℕ) where
  remove_record_total :
      (r : AutomatonRecord) (m : Model)
      → record_of r.aid m ≡ some r
      → ((k : ℕ) → FinMap.lookup k r.children ≡ none)
      → Inv rank m
      → (m' : Model) × (remove_record r m ≡ done m') × Removed rank r m m'
  unfolding remove_record
  remove_record_total r m here childless v =
      let (m1, e1, fr, ks) =
        destruct_all_keys (lost_outputs r.aid m.bindings) (unwired rank r m here childless v)
          (covered rank r m here childless v) in
      let (m2, e2, ea, ei, eb, er) =
        disown_done r.parent r.key m1 (parent_there rank r m here childless v m1 fr) in
      (
        forget r m2,
        rw (unbind_outputs-effects r.aid m.bindings, e1, e2) refl,
        forget-Removed rank r m here childless v m1 m2 fr ks ea ei eb er,
      )

  Removed-Destroys :
      (r : AutomatonRecord) (a : ℕ) (m m' : Model)
      → r.aid ≡ a
      → Removed rank r m m'
      → Destroys rank a m m'
  Removed-Destroys r a m m' e d = record {
    inv = d.inv;
    gone = elim (Option-cases (record_of a m')) [
      | inl none_left ↦ none_left
      | inr (s, there) ↦ absurd (let left = d.left a in ground arith)
    ];
    kept = λ j le ne. rw (d.left j) (ground (arith, is_some-without (bare r) (census m) j));
    no_new = λ j h.
        let there = h in
        let left = d.left j in
        ground (arith, is_some-without (bare r) (census m) j, ap is_some left);
    parents = λ j s' t. without-parent (bare r) (census m) j s' (sym (d.left j) ∙ t);
    all = λ j b.
        Below-gone d.inv.family
          (λ i s' t. without-parent (bare r) (census m) i s' (sym (d.left i) ∙ t))
          (let left = d.left a in ground (arith)) b;
    only = λ j t out.
        let same : j ≡ a =
          let left = d.left j in
          ground (arith, is_some-without (bare r) (census m) j, ap is_some left) in
        rw same itself;
    fewer = λ n lt. d.fewer (above rank n) (rw e (ground arith));
    less = d.fewer (λ _. true) refl;
  }

  Destroys-trans :
      (a c : ℕ) (m m1 m2 : Model)
      → rank a < rank c
      → Below (census m) a c
      → Destroys rank c m m1
      → Destroys rank a m1 m2
      → Destroys rank a m m2
  Destroys-trans a c m m1 m2 lt below d1 d2 = record {
    parents = both;
    all = λ j b. Below-gone d2.inv.family both (ap (FinMap.opt_map bare) d2.gone) b;
    only = λ j t out. elim (Option-cases (census m1 j)) [
      | inl early ↦ Below-trans below (d1.only j t early)
      | inr (s, there) ↦ Below-parents d1.parents (d2.only j (rw there refl) out)
    ];
    inv = d2.inv;
    gone = d2.gone;
    kept = λ j le ne. d2.kept j le ne ∙ d1.kept j (omega arith) (λ same. ground arith);
    no_new = λ j h. d1.no_new j (d2.no_new j h);
    fewer = λ n h. let less1 = d1.fewer n (omega arith) in let less2 = d2.fewer n h in omega arith;
    less = omega (arith, d1.less, d2.less);
  }
    where
      both : SameParents (census m2) (census m)
      both j s2 e =
          let (s1, there1, same1) = d2.parents j s2 e in
          let (s, there, same) = d1.parents j s1 there1 in (s, there, same1 ∙ same)

no_child :
    (r : AutomatonRecord) → get_first_child r ≡ none → (k : ℕ) → FinMap.lookup k r.children ≡ none
unfolding get_first_child
no_child r e k = go r.children e
  where
    go : (cs : List (ℕ × ℕ)) → first cs ≡ none → FinMap.lookup k cs ≡ none
    go [] h = FinMap.lookup-nil k
    go (c ∷ cs) h = absurd (ground arith)

first_child :
    (r : AutomatonRecord) (k c : ℕ)
    → get_first_child r ≡ some (k, c)
    → FinMap.lookup k r.children ≡ some c
unfolding get_first_child
first_child r k c e = go r.children e
  where
    go : (cs : List (ℕ × ℕ)) → first cs ≡ some (k, c) → FinMap.lookup k cs ≡ some c
    go [] h = absurd (ground arith)
    go ((j, d) ∷ cs) h = unfold FinMap.lookup in ground arith

module _ (rank : ℕ → ℕ) where
  abbrev Ends : ℕ → ℕ → Model → Type 0
  Ends fuel a m = (m' : Model) × (inner_destroy fuel a m ≡ done m') × Destroys rank a m m'

  present_after :
      (a c : ℕ) (m m1 : Model) (r : AutomatonRecord)
      → record_of a m ≡ some r
      → rank a < rank c
      → Destroys rank c m m1
      → (r1 : AutomatonRecord) × (record_of a m1 ≡ some r1)
  present_after a c m m1 r here lt d = elim (Option-cases (record_of a m1)) [
    | inl absent ↦ absurd (let kept = d.kept a (omega arith) (λ same. ground arith) in ground arith)
    | inr found ↦ found
  ]

  inner_destroy_total :
      (fuel a : ℕ) (m : Model) (r : AutomatonRecord)
      → record_of a m ≡ some r
      → Inv rank m
      → count_keys (above rank (rank a)) m.records < fuel
      → Ends fuel a m
  unfolding inner_destroy
  inner_destroy_total zero a m r here v h = absurd (omega arith)
  inner_destroy_total (suc fuel) a m r here v h =
      let aid : r.aid ≡ a = v.family.keyed a (bare r) (census-record m a here) in
      elim (Option-cases (get_first_child r)) [
        | inl e ↦
            let (m', done', d) = remove_record_total rank r m (simp aid here) (no_child r e) v in
            (
              m',
              rw (here, inner_destroy) (rw (e, inner_destroy) done'),
              Removed-Destroys rank r a m m' aid d,
            )
        | inr ((k, c), e) ↦
            let (s, at, parent, key) =
              v.family.downward a k c (bare r) (census-record m a here) (first_child r k c e) in
            let (rc, at_c, bare_c) = record-census m c at in
            let lt : rank a < rank c = v.family.ranked c a s at parent in
            let smaller =
              count_keys-lt (above rank (rank c)) (above rank (rank a)) (λ j t. ground arith) c
                m.records (rw at_c) (ground arith) (ground arith) in
            let (m1, e1, d1) = inner_destroy_total fuel c m rc at_c v (omega arith) in
            let (r1, here1) = present_after a c m m1 r here lt d1 in
            let fewer = d1.fewer (rank a) lt in
            let (m2, e2, d2) = inner_destroy_total fuel a m1 r1 here1 d1.inv (omega arith) in
            (
              m2,
              rw (here, inner_destroy) (rw (e, inner_destroy) (rw e1 e2)),
              Destroys-trans rank a c m m1 m2 lt (child_of s at parent itself) d1 d2,
            )
      ]

  -- Under the invariant the destruction of any automaton that is there returns, within the fuel
  -- that `destroy` gives it.
  pub inner_destroy_enough :
      (a : ℕ) (m : Model) (r : AutomatonRecord)
      → record_of a m ≡ some r
      → Inv rank m
      → Ends (enough m) a m
  inner_destroy_enough a m r here v =
      inner_destroy_total (enough m) a m r here v
        (omega (arith, count_keys-le_length (above rank (rank a)) m.records))
