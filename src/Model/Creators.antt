-- ===== src/Model/Creators.antt =====
-- The two `create` functions of lib/model.cpp under the invariant, with an allocator that returns
-- an instance and an aid left to take.
use ioa.Prelude.{
  ℕ, ◌<◌, ◌≡◌, refl, true, false, ◌||◌, Option, none, some, arith, ◌==◌, if◌then◌else◌, Bool-cases,
  Option-cases, inl, inr, length,
}
use ioa.FinSet.{contains-erase}
use ioa.FinSet
use ioa.FinMap.{lookup-insert, lookup-nil}
use ioa.FinMap
use ioa.Outcome.{done}
use ioa.SequentialSet.{SequentialSet, limit, take, replace, has}
use ioa.SequentialSet.Take.{IsTaken, take_total}
use ioa.Event.{
  set_current_aid, clear_current_aid, created, automaton_created, create_key_exists,
  instance_exists, no_aid,
}
use ioa.AutomatonRecord.{AutomatonRecord, Instance, new_record, set_parent, add_child}
use ioa.AutomatonRecord
use ioa.Model.{Model, tell, update, record_of, allocate, create_root, create, add_record}
use ioa.Model.Invariant.{census, Registry, Inv}
use ioa.Model.Removal.{is_parent}
use ioa.Model.Addition.{with_child, rank_with, IsNew}
use ioa.Model.Creation
use ioa.Model.Creation.{child_of, adopted, lookup-adopted, Inv-with}

-- `take`, and the allocator under the aid that was taken.
abbrev started : SequentialSet → ℕ → Model → Model
started aids aid m = tell (tell (record m { aids = aids }) (set_current_aid aid)) clear_current_aid

allocate_done :
    (m : Model) (i : Instance) (aid : ℕ) (aids : SequentialSet)
    → take m.aids ≡ some (aid, aids)
    → allocate m (some i) ≡ done ((aid, i), started aids aid m)
unfolding allocate
allocate_done m i aid aids e = rw e refl

-- With the instance known already the aid is given back: the ids in use are those of before.
returned :
    (m m' : Model) (aid : ℕ) (aids : SequentialSet)
    → IsTaken m.aids aid aids
    → m'.aids ≡ replace aids aid
    → m'.instances ≡ m.instances
    → Registry (census m) m.aids m.instances
    → Registry (census m) m'.aids m'.instances
unfolding replace
returned m m' aid aids t ea ei v = record {
  counter = rw ea (rw t.counter t.bound);
  used =
      λ j. rw ea (ground (arith, contains-erase j aid aids.used, t.members j, t.fresh, v.used j));
  listed = rw ei v.listed;
  distinct = v.distinct;
  owned = rw ei v.owned;
}

-- A model that differs from `m` in its set of aids, and there by the counter alone.
returned-Inv :
    (rank : ℕ → ℕ) (m m' : Model) (aid : ℕ) (aids : SequentialSet)
    → IsTaken m.aids aid aids
    → m'.aids ≡ replace aids aid
    → m'.instances ≡ m.instances
    → m'.records ≡ m.records
    → m'.bindings ≡ m.bindings
    → Inv rank m
    → Inv rank m'
returned-Inv rank m m' aid aids t ea ei er eb v = record {
  family = rw er v.family;
  registry = rw er (returned m m' aid aids t ea ei v.registry);
  linked = rw (er, eb) v.linked;
}

-- What a call of `create` does; `parent` is none for the root's, which has no parent to tell.
pub data Creates (m : Model) (parent : Option ℕ) (i : Instance) (key : ℕ) (m' : Model)
    : Option ℕ → Type 0 where
  refused : ((a : ℕ) → census m' a ≡ census m a) → Creates m parent i key m' none
  made :
      (aid : ℕ)
      → census m aid ≡ none
      → FinSet.contains i.address m.instances ≡ false
      → ((a : ℕ) → census m' a ≡ with_child (child_of aid i key parent) (census m) a)
      → Creates m parent i key m' (some aid)

pub record Created (rank : ℕ → ℕ) (m : Model) (parent : Option ℕ) (i : Instance) (key : ℕ)
    (result : Option ℕ) (m' : Model) : Type 0 where
  pub does : Creates m parent i key m' result
  pub rank' : ℕ → ℕ
  pub inv : Inv rank' m'

module _ (rank : ℕ → ℕ) (m : Model) (i : Instance) (v : Inv rank m)
    (space : length m.aids.used < limit) where
  fresh_aid : (aid : ℕ) (aids : SequentialSet) → IsTaken m.aids aid aids → census m aid ≡ none
  fresh_aid aid aids t = elim (Option-cases (census m aid)) [
    | inl absent ↦ absent
    | inr (r, there) ↦
        absurd (let used = v.registry.used aid in let fresh = t.fresh in ground arith)
  ]

  record_none : (aid : ℕ) → census m aid ≡ none → record_of aid m ≡ none
  record_none aid e = ground arith

  -- The record goes into the map, and the parent, if any, takes it as a child.
  added :
      (aid : ℕ) (aids : SequentialSet) (key : ℕ) (parent : Option ℕ) (m' : Model)
      → IsTaken m.aids aid aids
      → IsNew (child_of aid i key parent) (census m)
      → FinSet.contains i.address m.instances ≡ false
      → m'.aids ≡ aids
      → m'.instances ≡ FinSet.insert i.address m.instances
      → m'.bindings ≡ m.bindings
      → m'.records
        ≡ adopted parent key aid (FinMap.insert aid (child_of aid i key parent) m.records)
      → Created rank m parent i key (some aid) m'
  added aid aids key parent m' t new unused ea ei eb er = record {
    does =
        made aid new.fresh unused
          (Creation.census_with rank m m' c v new refl refl lt members unused ei eb entry);
    rank' = rank_with rank c;
    inv = Inv-with rank m m' c v new refl refl lt members unused ei eb entry;
  }
    where
      c : AutomatonRecord
      c = child_of aid i key parent

      lt : m'.aids.counter < limit
      lt = rw ea (rw t.counter t.bound)

      members : (b : ℕ) → has m'.aids b ≡ (b == aid || has m.aids b)
      members b = rw ea (t.members b)

      not_parent : (j : ℕ) → (j == aid) ≡ true → is_parent parent j ≡ false
      not_parent j e = elim (Option-cases parent) [
        | inl none_there ↦ ground arith
        | inr (p, there) ↦
            let found = new.parent_there p there in let fresh = new.fresh in ground arith
      ]

      entry :
          (j : ℕ)
          → record_of j m' ≡ (
              if j == aid
              then some c
              else if is_parent parent j
              then FinMap.opt_map (add_child key aid) (record_of j m)
              else record_of j m)
      entry j =
          rw
            (
              er,
              lookup-adopted parent key aid j (FinMap.insert aid c m.records),
              lookup-insert j aid c m.records (record_none aid new.fresh),
            )
            (ground (arith, not_parent j))

  -- Under the invariant, with an aid left and an allocator that gives an instance, creating a root
  -- automaton returns. It either gives no aid and leaves the automata as they are, or gives an aid
  -- that was new, for an instance that was not known, and the automaton is there with no parent,
  -- and all others as before. The invariant holds again.
  pub create_root_total :
      (result : Option ℕ) × (m' : Model) × (create_root m (some i) ≡ done (result, m'))
      × Created rank m none i 0 result m'
  unfolding create_root new_record
  create_root_total =
      let (aid, aids, e, t) = take_total m.aids v.registry.counter space in
      let start = allocate_done m i aid aids e in
      let m1 = started aids aid m in
      elim (Bool-cases (FinSet.contains i.address m.instances)) [
        | inl known ↦
            let m' = record m1 { aids = replace aids aid } in
            (
              none,
              m',
              rw (start, known) refl,
              record {
                does = refused (λ a. refl);
                rank' = rank;
                inv = returned-Inv rank m m' aid aids t refl refl refl refl v;
              },
            )
        | inr unknown ↦
            let c = child_of aid i 0 none in
            let m' = add_record aid i c m1 in
            let new : IsNew c (census m) = record {
              fresh = fresh_aid aid aids t;
              childless = λ k. lookup-nil k;
              parent_there = λ p h. absurd (cc h);
              free = λ p q h at. absurd (cc h);
            } in
            (
              some aid,
              m',
              rw (start, unknown) refl,
              added aid aids 0 none m' t new unknown refl refl refl refl,
            )
      ]

  refusal_Created :
      (parent : Option ℕ) (key : ℕ) (m' : Model)
      → m'.aids ≡ m.aids
      → m'.instances ≡ m.instances
      → m'.records ≡ m.records
      → m'.bindings ≡ m.bindings
      → Created rank m parent i key none m'
  refusal_Created parent key m' ea ei er eb = record {
    does = refused (λ a. rw er refl);
    rank' = rank;
    inv = record {
      family = rw er v.family;
      registry = rw (er, ea, ei) v.registry;
      linked = rw (er, eb) v.linked;
    };
  }

  -- The rest of `create`, after the two checks on the creator.
  create_checked :
      (creator key : ℕ) (r : AutomatonRecord)
      → has m.aids creator ≡ true
      → record_of creator m ≡ some r
      → AutomatonRecord.create_key_exists r key ≡ false
      → (result : Option ℕ) × (m' : Model) × (create m creator (some i) key ≡ done (result, m'))
        × Created rank m (some creator) i key result m'
  unfolding create new_record set_parent update AutomatonRecord.create_key_exists
  create_checked creator key r alive there unused_key =
      let (aid, aids, e, t) = take_total m.aids v.registry.counter space in
      let start = allocate_done m i aid aids e in
      let m1 = started aids aid m in
      elim (Bool-cases (FinSet.contains i.address m.instances)) [
        | inl known ↦
            let m' =
              tell (record m1 { aids = replace aids aid })
                (created creator instance_exists key no_aid) in
            (
              none,
              m',
              rw (alive, there) (rw (unused_key, start) (rw known refl)),
              record {
                does = refused (λ a. refl);
                rank' = rank;
                inv = returned-Inv rank m m' aid aids t refl refl refl refl v;
              },
            )
        | inr unknown ↦
            let c = child_of aid i key (some creator) in
            let m2 = add_record aid i c m1 in
            let m' =
              tell (record m2 { records = FinMap.modify creator (add_child key aid) m2.records })
                (created creator automaton_created key aid) in
            let fresh = fresh_aid aid aids t in
            let still : FinMap.lookup creator m2.records ≡ some r =
              rw (lookup-insert creator aid c m.records (record_none aid fresh)) (ground arith) in
            let new : IsNew c (census m) = record {
              fresh = fresh;
              childless = λ k. lookup-nil k;
              parent_there = λ p h. ground arith;
              free = λ p q h at. ground arith;
            } in
            (
              some aid,
              m',
              rw (alive, there) (rw (unused_key, start) (rw (unknown) (rw (still, update) refl))),
              added aid aids key (some creator) m' t new unknown refl refl refl refl,
            )
      ]

  -- Under the invariant, with an aid left and an allocator that gives an instance, creating an
  -- automaton for a creator returns, whatever the creator and the key. It either gives no aid and
  -- leaves the automata as they are, or gives an aid that was new, for an instance that was not
  -- known, and the automaton is there as the child of the creator under the key, and all others as
  -- before. The invariant holds again.
  pub create_total :
      (creator key : ℕ)
      → (result : Option ℕ) × (m' : Model) × (create m creator (some i) key ≡ done (result, m'))
        × Created rank m (some creator) i key result m'
  unfolding create
  create_total creator key = elim (Bool-cases (has m.aids creator)) [
    | inr dead ↦ (none, m, rw dead refl, refusal_Created (some creator) key m refl refl refl refl)
    | inl alive ↦ elim (Option-cases (record_of creator m)) [
      | inl absent ↦ absurd (let used = v.registry.used creator in ground arith)
      | inr (r, there) ↦ elim (Bool-cases (AutomatonRecord.create_key_exists r key)) [
        | inl taken ↦
            let m' = tell m (created creator create_key_exists key no_aid) in
            (
              none,
              m',
              rw (alive, there) (rw taken refl),
              refusal_Created (some creator) key m' refl refl refl refl,
            )
        | inr unused_key ↦ unfold create in create_checked creator key r alive there unused_key
      ]
    ]
  ]
