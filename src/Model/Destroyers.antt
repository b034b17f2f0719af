-- ===== src/Model/Destroyers.antt =====
-- The two `destroy` functions of lib/model.cpp under the invariant.
use ioa.Prelude.{
  ℕ, ◌≡◌, refl, Bool, true, false, Option, none, some, arith, is_some, Bool-cases, Option-cases,
  inl, inr,
}
use ioa.Outcome.{done}
use ioa.SequentialSet.{has}
use ioa.Event.{destroyed, create_key_dne}
use ioa.AutomatonRecord.{AutomatonRecord, get_child}
use ioa.AutomatonRecord
use ioa.Model.{Model, Status, success, failure, tell, record_of}
use ioa.Model.Invariant.{census, bare, Inv}
use ioa.Model.Destruction.{census-record, record-census}
use ioa.Model.Termination.{Destroys, inner_destroy_enough}
use ioa.Model.Destroy.{destroy_root, destroy}

-- What a call of `destroy` does.
pub data Outcomes (rank : ℕ → ℕ) (m m' : Model) : Option ℕ → Status → Type 0 where
  refused : ((a : ℕ) → census m' a ≡ census m a) → Inv rank m' → Outcomes rank m m' none failure
  destroys :
      (a : ℕ)
      → is_some (census m a) ≡ true
      → Destroys rank a m m'
      → Outcomes rank m m' (some a) success

-- The child that the automaton has under the key, if any.
abbrev pub child_at : ℕ → ℕ → Option AutomatonRecord → Option ℕ
child_at a key none = none
child_at a key (some r) = get_child r key

module _ (rank : ℕ → ℕ) (m : Model) (v : Inv rank m) where
  used_record : (a : ℕ) → has m.aids a ≡ true → (r : AutomatonRecord) × (record_of a m ≡ some r)
  used_record a e = elim (Option-cases (record_of a m)) [
    | inl absent ↦ absurd (let used = v.registry.used a in ground arith)
    | inr found ↦ found
  ]

  abbrev if_used : Bool → ℕ → Option ℕ
  if_used true a = some a
  if_used false a = none

  -- Under the invariant, destroying an automaton returns. If it is not there, this fails and leaves
  -- the automata as they are. Otherwise this succeeds: exactly the automaton and its descendants
  -- are gone, none is new, and those that stay have their parents. The invariant holds again.
  pub destroy_root_total :
      (a : ℕ)
      → (status : Status) × (m' : Model) × (destroy_root m a ≡ done (status, m'))
        × Outcomes rank m m' (if_used (has m.aids a) a) status
  unfolding destroy_root
  destroy_root_total a = elim (Bool-cases (has m.aids a)) [
    | inr dead ↦ (failure, m, rw dead refl, rw dead (refused (λ j. refl) v))
    | inl alive ↦
        let (r, there) = used_record a alive in
        let (m', e, d) = inner_destroy_enough rank a m r there v in
        (success, m', rw (alive, e) refl, rw alive (destroys a (rw there refl) d))
  ]

  refused_told :
      (m' : Model)
      → m'.aids ≡ m.aids
      → m'.instances ≡ m.instances
      → m'.records ≡ m.records
      → m'.bindings ≡ m.bindings
      → Outcomes rank m m' none failure
  refused_told m' ea ei er eb =
      refused (λ a. rw er refl)
        (record {
          family = rw er v.family;
          registry = rw (er, ea, ei) v.registry;
          linked = rw (er, eb) v.linked;
        })

  child_there :
      (a key c : ℕ) (r : AutomatonRecord)
      → record_of a m ≡ some r
      → get_child r key ≡ some c
      → (s : AutomatonRecord) × (record_of c m ≡ some s)
  unfolding get_child
  child_there a key c r there e =
      let (s, at, parent, k) = v.family.downward a key c (bare r) (census-record m a there) e in
      let (s', at', same) = record-census m c at in (s', at')

  -- Under the invariant, destroying a child by its key returns. If the automaton is not there or
  -- has no child under the key, this fails and leaves the automata as they are. Otherwise this
  -- succeeds: exactly the child and its descendants are gone, none is new, and those that stay have
  -- their parents. The invariant holds again.
  pub destroy_total :
      (a key : ℕ)
      → (status : Status) × (m' : Model) × (destroy m a key ≡ done (status, m'))
        × Outcomes rank m m' (child_at a key (record_of a m)) status
  unfolding destroy AutomatonRecord.create_key_exists
  destroy_total a key = elim (Option-cases (record_of a m)) [
    | inl absent ↦
        let used = v.registry.used a in
        (failure, m, (ground arith), rw absent (refused (λ j. refl) v))
    | inr (r, there) ↦
        let used = v.registry.used a in
        let alive : has m.aids a ≡ true = ground arith in
        elim (Option-cases (get_child r key)) [
          | inl no_child ↦
              let m' = tell m (destroyed a create_key_dne key) in
              (
                failure,
                m',
                rw (alive, there) (unfold get_child in rw no_child refl),
                rw there (rw no_child (refused_told m' refl refl refl refl)),
              )
          | inr (c, has_child) ↦
              let (s, there_c) = child_there a key c r there has_child in
              let (m', e, d) = inner_destroy_enough rank c m s there_c v in
              (
                success,
                m',
                rw (alive, there) (unfold get_child in rw (has_child) (rw e refl)),
                rw there (rw has_child (destroys c (rw there_c refl) d)),
              )
        ]
  ]
