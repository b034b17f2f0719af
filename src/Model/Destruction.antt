-- ===== src/Model/Destruction.antt =====
-- The end of `inner_destroy` of lib/model.cpp under the invariant, for an automaton without
-- children.
use mathlib.Core.Path.{fun_ext}
use ioa.Prelude.{
  ℕ, ◌+◌, ◌≤◌, ◌<◌, ◌≡◌, refl, ◌≢◌, ◌∙◌, sym, subst, Bool, true, List, Option, none, some, arith,
  ◌==◌, if◌then◌else◌, is_some, Option-cases, inl, inr, ap,
}
use ioa.FinMap.{
  lookup-erase, lookup-modify, count_keys, count_keys-erase-lt, count_keys-lt, count_keys-modify,
  count_keys-le_length,
}
use ioa.FinMap
use ioa.Outcome.{done}
use ioa.Event.{destroyed, automaton_destroyed}
use ioa.Executor.Bindings.{count_outputs, count_removed}
use ioa.Executor.{Output}
use ioa.AutomatonRecord.{AutomatonRecord, remove_child}
use ioa.Model.{Model, tell, update, record_of}
use ioa.Model.Invariant.{census, bare, keys, key_count, Family, Registry, Inv}
use ioa.Model.Effects.{Frame}
use ioa.Model.Unwiring.{
  lost_outputs, unbind_outputs-count, unbind_outputs-none, unbind_outputs-IsWired,
}
use ioa.Model.Removal.{is_parent, without, Family-without, Registry-without, is_some-without}
use ioa.Model.Destroy.{unbind_outputs, disown, forget}

-- An automaton that is there in the census is there in the model, and the other way round.
pub census-record :
    (m : Model) (a : ℕ) {r : AutomatonRecord} → record_of a m ≡ some r → census m a ≡ some (bare r)
census-record m a e = rw e

pub record-census :
    (m : Model) (a : ℕ) {s : AutomatonRecord}
    → census m a ≡ some s
    → (r : AutomatonRecord) × (record_of a m ≡ some r) × (bare r ≡ s)
record-census m a e = elim (Option-cases (record_of a m)) [
  | inl absent ↦ absurd (ground arith)
  | inr (r, here) ↦ (r, here, ground arith)
]

abbrev pub disowned : Option ℕ → ℕ → List (ℕ × AutomatonRecord) → List (ℕ × AutomatonRecord)
disowned none key rs = rs
disowned (some p) key rs = FinMap.modify p (remove_child key) rs

-- The parent is there to be told.
pub disown_done :
    (parent : Option ℕ) (key : ℕ) (m : Model)
    → ((p : ℕ) → parent ≡ some p → is_some (record_of p m) ≡ true)
    → (m' : Model) × (disown parent key m ≡ done m')
      × (m'.aids ≡ m.aids)
      × (m'.instances ≡ m.instances)
      × (m'.bindings ≡ m.bindings)
      × (m'.records ≡ disowned parent key m.records)
unfolding update
disown_done none key m h = (m, refl, refl, refl, refl, refl)
disown_done (some p) key m h = elim (Option-cases (record_of p m)) [
  | inl e ↦ absurd (let there = h p refl in ground arith)
  | inr (r, e) ↦ (
    tell (record m { records = FinMap.modify p (remove_child key) m.records })
        (destroyed p automaton_destroyed key),
    rw (e, update) refl,
    refl,
    refl,
    refl,
    refl,
  )
]

-- The census and the bind keys after the record's removal.
removed_entry :
    (r : AutomatonRecord) (o : Option AutomatonRecord) (out mine : Bool)
    → FinMap.opt_map bare
        (if out then none else if mine then FinMap.opt_map (remove_child r.key) o else o)
      ≡ (if out
          then none
          else if mine
          then FinMap.opt_map (remove_child r.key) (FinMap.opt_map bare o)
          else FinMap.opt_map bare o)
unfolding remove_child
removed_entry r none out mine = ground arith
removed_entry r (some s) out mine = ground arith

lookup-disowned :
    (parent : Option ℕ) (key j : ℕ) (rs : List (ℕ × AutomatonRecord))
    → FinMap.lookup j (disowned parent key rs) ≡ (
        if is_parent parent j
        then FinMap.opt_map (remove_child key) (FinMap.lookup j rs)
        else FinMap.lookup j rs)
lookup-disowned none key j rs = refl
lookup-disowned (some p) key j rs = lookup-modify j p (remove_child key) rs

count_keys-disowned :
    (p : ℕ → Bool) (parent : Option ℕ) (key : ℕ) (rs : List (ℕ × AutomatonRecord))
    → count_keys p (disowned parent key rs) ≡ count_keys p rs
count_keys-disowned p none key rs = refl
count_keys-disowned p (some a) key rs = count_keys-modify p a (remove_child key) rs

removed_keys :
    (r : AutomatonRecord) (o : Option AutomatonRecord) (out mine : Bool) (k : ℕ)
    → key_count (if out then none else if mine then FinMap.opt_map (remove_child r.key) o else o) k
      ≡ (if out then 0 else key_count o k)
unfolding remove_child
removed_keys r none out mine k = ground arith
removed_keys r (some s) out mine k = ground arith

-- What the removal of `r` comes to.
pub record Removed (rank : ℕ → ℕ) (r : AutomatonRecord) (m m' : Model) : Type 0 where
  pub inv : Inv rank m'
  pub left : (j : ℕ) → census m' j ≡ without (bare r) (census m) j
  pub fewer : (p : ℕ → Bool) → p r.aid ≡ true → count_keys p m'.records < count_keys p m.records

module _ (rank : ℕ → ℕ) (r : AutomatonRecord) (m : Model) (here : record_of r.aid m ≡ some r)
    (childless : (k : ℕ) → FinMap.lookup k r.children ≡ none) (v : Inv rank m) where
  abbrev pub rest : List Output
  rest = (unbind_outputs r.aid m.bindings).0

  abbrev pub unwired : Model
  unwired = record m { bindings = rest }

  pub covered : (j k : ℕ) → count_removed j k (lost_outputs r.aid m.bindings) ≤ keys unwired j k
  covered j k = omega (arith, unbind_outputs-count j k r.aid m.bindings, v.linked.balanced j k)

  pub parent_there :
      (m1 : Model)
      → Frame unwired m1
      → (p : ℕ) → r.parent ≡ some p
      → is_some (record_of p m1) ≡ true
  parent_there m1 fr p e =
      let (q, at, child) = v.family.upward r.aid p (bare r) (census-record m r.aid here) e in
      let (s, at', same) = record-census m1 p (fr.same p ∙ at) in rw at'

  -- The last step, from what the effects and the parent's notice leave.
  pub forget-Removed :
      (m1 m2 : Model)
      → Frame unwired m1
      → ((j k : ℕ)
          → keys m1 j k + count_removed j k (lost_outputs r.aid m.bindings) ≡ keys unwired j k)
      → m2.aids ≡ m1.aids
      → m2.instances ≡ m1.instances
      → m2.bindings ≡ m1.bindings
      → m2.records ≡ disowned r.parent r.key m1.records
      → Removed rank r m (forget r m2)
  forget-Removed m1 m2 fr ks ea ei eb er = record { inv = inv; left = left; fewer = fewer }
    where
      entry :
          (j : ℕ)
          → record_of j (forget r m2) ≡ (
              if j == r.aid
              then none
              else if is_parent r.parent j
              then FinMap.opt_map (remove_child r.key) (record_of j m1)
              else record_of j m1)
      entry j =
          rw (lookup-erase j r.aid m2.records, er, lookup-disowned r.parent r.key j m1.records) refl

      left : (j : ℕ) → census (forget r m2) j ≡ without (bare r) (census m) j
      left j =
          rw (entry j, ← fr.same j)
            (removed_entry r (record_of j m1) (j == r.aid) (is_parent r.parent j))

      key_left : (j k : ℕ) → keys (forget r m2) j k ≡ (if j == r.aid then 0 else keys m1 j k)
      key_left j k =
          rw (entry j) (removed_keys r (record_of j m1) (j == r.aid) (is_parent r.parent j) k)

      bound : m2.bindings ≡ rest
      bound = eb ∙ fr.bindings

      still_there : is_some (FinMap.lookup r.aid (disowned r.parent r.key m1.records)) ≡ true
      still_there =
          let (s, at, same) = record-census m1 r.aid (fr.same r.aid ∙ census-record m r.aid here) in
          rw (lookup-disowned r.parent r.key r.aid m1.records, at) (ground arith)

      balanced : (j k : ℕ) → count_outputs j k (forget r m2).bindings ≡ keys (forget r m2) j k
      balanced j k =
          rw (bound, key_left j k)
            (ground (
              arith,
              unbind_outputs-none k r.aid m.bindings,
              ks j k,
              unbind_outputs-count j k r.aid m.bindings,
              v.linked.balanced j k,
            ))

      there : census m r.aid ≡ some (bare r)
      there = census-record m r.aid here

      gone :
          (j : ℕ)
          → j ≢ r.aid
          → is_some (census m j) ≡ true
          → is_some (census (forget r m2) j) ≡ true
      gone j ne h = rw (left j) (ground (arith, is_some-without (bare r) (census m) j))

      reg : Registry (without (bare r) (census m)) (forget r m2).aids (forget r m2).instances
      reg =
          rw (ea, fr.aids, ei, fr.instances)
            (Registry-without (bare r) (census m) m.aids m.instances there v.registry)

      inv : Inv rank (forget r m2)
      inv = record {
        family =
            subst (Family rank) (sym (fun_ext left))
              (Family-without rank (bare r) (census m) there childless v.family);
        registry =
            subst (λ f. Registry f (forget r m2).aids (forget r m2).instances) (sym (fun_ext left))
              reg;
        linked = record {
          wired = rw bound (
              unbind_outputs-IsWired (census m) (census (forget r m2)) r.aid gone m.bindings
                v.linked.wired);
          balanced = balanced;
        };
      }

      fewer :
          (p : ℕ → Bool)
          → p r.aid ≡ true
          → count_keys p (forget r m2).records < count_keys p m.records
      fewer p t =
          let less = count_keys-erase-lt p r.aid m2.records (rw er still_there) t in
          let same = count_keys-disowned p r.parent r.key m1.records in
          let before = fr.counts p in omega (arith, less, ap (count_keys p) er, same, before)
