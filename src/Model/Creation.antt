-- ===== src/Model/Creation.antt =====
-- The steps of the two `create` functions of lib/model.cpp under the invariant.
use mathlib.Core.Path.{fun_ext}
use ioa.Prelude.{
  ℕ, ◌<◌, ◌≡◌, refl, sym, subst, Bool, true, false, ◌||◌, List, [], Option, none, some, arith, ◌==◌,
  if◌then◌else◌, Option-cases, inl, inr, All-map,
}
use ioa.FinSet.{contains-erase}
use ioa.FinSet
use ioa.FinMap.{lookup-insert, lookup-modify, lookup-nil}
use ioa.FinMap
use ioa.SequentialSet.{limit, has}
use ioa.AutomatonRecord.{AutomatonRecord, Instance, add_child}
use ioa.Model.{Model, record_of}
use ioa.Model.Invariant.{census, bare, keys, key_count, Family, Registry, Inv, IsWired}
use ioa.Model.Removal.{is_parent}
use ioa.Model.Addition.{
  with_child, rank_with, IsNew, Family-with, Registry-with, is_some-with, IsWired-mono,
}

-- The record that `create` makes: without bind keys, so it is its own entry in the census.
abbrev pub child_of : ℕ → Instance → (key : ℕ) → Option ℕ → AutomatonRecord
child_of aid i key parent = record {
  instance_of = i;
  aid = aid;
  children = [];
  key = key;
  parent = parent;
  bind_keys = [];
}

abbrev pub adopted :
    Option ℕ → (key aid : ℕ) → List (ℕ × AutomatonRecord) → List (ℕ × AutomatonRecord)
adopted none key aid rs = rs
adopted (some p) key aid rs = FinMap.modify p (add_child key aid) rs

pub lookup-adopted :
    (parent : Option ℕ) (key aid j : ℕ) (rs : List (ℕ × AutomatonRecord))
    → FinMap.lookup j (adopted parent key aid rs) ≡ (
        if is_parent parent j
        then FinMap.opt_map (add_child key aid) (FinMap.lookup j rs)
        else FinMap.lookup j rs)
lookup-adopted none key aid j rs = refl
lookup-adopted (some p) key aid j rs = lookup-modify j p (add_child key aid) rs

added_entry :
    (c : AutomatonRecord) (o : Option AutomatonRecord) (here mine : Bool)
    → bare c ≡ c
    → FinMap.opt_map bare
        (if here then some c else if mine then FinMap.opt_map (add_child c.key c.aid) o else o)
      ≡ (if here
          then some c
          else if mine
          then FinMap.opt_map (add_child c.key c.aid) (FinMap.opt_map bare o)
          else FinMap.opt_map bare o)
unfolding add_child
added_entry c none here mine e = ground arith
added_entry c (some s) here mine e = ground arith

added_keys :
    (c : AutomatonRecord) (o : Option AutomatonRecord) (here mine : Bool) (k : ℕ)
    → (here ≡ true → o ≡ none)
    → c.bind_keys ≡ []
    → key_count
        (if here then some c else if mine then FinMap.opt_map (add_child c.key c.aid) o else o)
        k
      ≡ key_count o k
unfolding add_child
added_keys c none here mine k h e = ground (arith, FinSet.contains-nil k)
added_keys c (some s) here mine k h e = ground (arith, h)

-- A model to which an automaton was added keeps the invariant.
module _ (rank : ℕ → ℕ) (m m' : Model) (c : AutomatonRecord) (v : Inv rank m)
    (new : IsNew c (census m)) (no_keys : c.bind_keys ≡ []) (whole : bare c ≡ c)
    (counter : m'.aids.counter < limit)
    (members : (b : ℕ) → has m'.aids b ≡ (b == c.aid || has m.aids b))
    (unused : FinSet.contains c.instance_of.address m.instances ≡ false)
    (instances : m'.instances ≡ FinSet.insert c.instance_of.address m.instances)
    (bindings : m'.bindings ≡ m.bindings)
    (records : (j : ℕ)
      → record_of j m' ≡ (
          if j == c.aid
          then some c
          else if is_parent c.parent j
          then FinMap.opt_map (add_child c.key c.aid) (record_of j m)
          else record_of j m)) where
  pub census_with : (j : ℕ) → census m' j ≡ with_child c (census m) j
  census_with j =
      rw (records j) (added_entry c (record_of j m) (j == c.aid) (is_parent c.parent j) whole)

  no_record : (j : ℕ) → (j == c.aid) ≡ true → record_of j m ≡ none
  no_record j e = elim (Option-cases (record_of j m)) [
    | inl absent ↦ absent
    | inr (r, there) ↦ absurd (let fresh = new.fresh in ground arith)
  ]

  keys_with : (j k : ℕ) → keys m' j k ≡ keys m j k
  keys_with j k =
      rw (records j)
        (added_keys c (record_of j m) (j == c.aid) (is_parent c.parent j) k (no_record j) no_keys)

  pub Inv-with : Inv (rank_with rank c) m'
  Inv-with = record {
    family =
        subst (Family (rank_with rank c)) (sym (fun_ext census_with))
          (Family-with rank c (census m) new v.family);
    registry =
        subst (λ f. Registry f m'.aids m'.instances) (sym (fun_ext census_with))
          (rw instances (
            Registry-with c (census m) new m.aids m'.aids m.instances counter members unused
              v.registry));
    linked = record {
      wired = rw bindings (
          All-map (IsWired (census m)) (IsWired (census m'))
            (IsWired-mono (census m) (census m')
              (λ j h. rw (census_with j) (ground (arith, is_some-with c (census m) new j))))
            m.bindings v.linked.wired);
      balanced = λ j k. rw (bindings, keys_with j k) (v.linked.balanced j k);
    };
  }
