-- ===== src/Model/Clearing.antt =====
-- `clear` of lib/model.cpp under the invariant: its rounds and what is left.
use ioa.Prelude.{
  List-cases, ℕ, zero, suc, ◌<◌, ◌≡◌, refl, true, false, List, [], ◌∷◌, none, some, arith, ◌==◌,
  if◌then◌else◌, Bool-cases, Option-cases, inl, inr, All, ap,
}
use ioa.FinSet
use ioa.FinMap.{count_keys, count_keys-le_length}
use ioa.FinMap
use ioa.Outcome.{done}
use ioa.SequentialSet.{is_empty}
use ioa.Executor.{Output}
use ioa.AutomatonRecord.{AutomatonRecord}
use ioa.Model.{Model, record_of}
use ioa.Model.Invariant.{census, bare, Inv, IsWired}
use ioa.Model.Destruction.{census-record, record-census}
use ioa.Model.Termination.{inner_destroy_enough}
use ioa.Model.Destroy.{enough, first_root, clear_from, clear, is_nil}

contains_head : (x : ℕ) (xs : List ℕ) → FinSet.contains x (x ∷ xs) ≡ true
unfolding FinSet.contains
contains_head x xs = ground arith

nil_of_none : (xs : List ℕ) → ((x : ℕ) → FinSet.contains x xs ≡ false) → xs ≡ []
nil_of_none [] h = refl
nil_of_none (x ∷ xs) h = absurd (let found = contains_head x xs in let no_x = h x in cc)

first_root_found :
    (a : ℕ) (r : AutomatonRecord) (rs : List (ℕ × AutomatonRecord))
    → FinMap.lookup a rs ≡ some r
    → r.parent ≡ none
    → (b : ℕ) × (s : AutomatonRecord) × (first_root rs ≡ some b) × (FinMap.lookup b rs ≡ some s)
unfolding first_root FinMap.lookup
first_root_found a r [] e p = absurd (ground arith)
first_root_found a r ((j, t) ∷ rs) e p = elim (Option-cases t.parent) [
  | inl root ↦ (j, t, rw (root) refl, ground arith)
  | inr (q, child) ↦
      let (b, s, found, there) = first_root_found a r rs (ground arith) p in
      (b, if b == j then t else s, rw child found, ground arith)
]

module _ (rank : ℕ → ℕ) (m : Model) (v : Inv rank m) where
  -- Going up from any automaton leads to a root.
  root_above :
      (n a : ℕ) (r : AutomatonRecord)
      → rank a < n
      → record_of a m ≡ some r
      → (b : ℕ) × (s : AutomatonRecord) × (record_of b m ≡ some s) × (s.parent ≡ none)
  root_above zero a r lt there = absurd (omega arith)
  root_above (suc n) a r lt there = elim (Option-cases r.parent) [
    | inl root ↦ (a, r, there, root)
    | inr (p, child) ↦
        let (q, at, entry) = v.family.upward a p (bare r) (census-record m a there) child in
        let (s, there_p, same) = record-census m p at in
        let less = v.family.ranked a p (bare r) (census-record m a there) child in
        root_above n p s (omega arith) there_p
  ]

  root_found :
      (e : ℕ × AutomatonRecord) (rs : List (ℕ × AutomatonRecord))
      → m.records ≡ e ∷ rs
      → (b : ℕ) × (s : AutomatonRecord) × (first_root m.records ≡ some b) × (record_of b m ≡ some s)
  root_found (a, r) rs e =
      let there : record_of a m ≡ some r = simp e (unfold FinMap.lookup in ground arith) in
      let (b, s, there_b, root) = root_above (suc (rank a)) a r (omega arith) there in
      first_root_found b s m.records there_b root

-- Nothing is left.
pub record IsCleared (m : Model) : Type 0 where
  pub aids : m.aids.used ≡ []
  pub instances : m.instances ≡ []
  pub records : m.records ≡ []
  pub bindings : m.bindings ≡ []

IsCleared-nil : (rank : ℕ → ℕ) (m : Model) → Inv rank m → m.records ≡ [] → IsCleared m
IsCleared-nil rank m v e = record {
  aids =
      nil_of_none m.aids.used
        (λ a. let used = v.registry.used a in let no_a = nobody a in ground arith);
  instances = nil_of_none m.instances no_instance;
  records = e;
  bindings = no_binding m.bindings v.linked.wired;
}
  where
    nobody : (a : ℕ) → census m a ≡ none
    nobody a = simp (e, FinMap.lookup-nil) refl

    no_instance : (i : ℕ) → FinSet.contains i m.instances ≡ false
    no_instance i = elim (Bool-cases (FinSet.contains i m.instances)) [
      | inl there ↦
          let (a, r, at, address) = v.registry.owned i there in
          absurd (let no_a = nobody a in ground arith)
      | inr absent ↦ absent
    ]

    no_binding : (os : List Output) → All (IsWired (census m)) os → os ≡ []
    no_binding [] w = refl
    no_binding (o ∷ os) w =
        absurd (let no_o = nobody o.action.aid in let alive = w.0.output_alive in ground arith)

clear_from_total :
    (fuel : ℕ) (rank : ℕ → ℕ) (m : Model)
    → Inv rank m
    → count_keys (λ _. true) m.records < fuel
    → (m' : Model) × (clear_from fuel m ≡ done m') × IsCleared m'
unfolding clear_from
clear_from_total zero rank m v h = absurd (omega arith)
clear_from_total (suc fuel) rank m v h = elim (List-cases m.records) [
  | inl e ↦ (m, rw (ap is_nil e, clear_from) refl, IsCleared-nil rank m v e)
  | inr (x, rs, e) ↦
      let (b, s, found, there) = root_found rank m v x rs e in
      let (m1, e1, d) = inner_destroy_enough rank b m s there v in
      let less = d.less in
      let (m2, e2, cleared) = clear_from_total fuel rank m1 d.inv (omega arith) in
      (m2, rw (ap is_nil e, clear_from) (rw (found, clear_from) (rw e1 e2)), cleared)
]

-- Under the invariant, clearing a model returns with nothing left of it: no aid in use, no
-- instance, no record and no binding, so that none of the assertions at its end fails.
pub clear_total :
    (rank : ℕ → ℕ) (m : Model) → Inv rank m → (m' : Model) × (clear m ≡ done m') × IsCleared m'
unfolding clear is_empty
clear_total rank m v =
    let (m', e, c) =
      clear_from_total (enough m) rank m v
        (omega (arith, count_keys-le_length (λ _. true) m.records)) in
    let aids = c.aids in
    let instances = c.instances in
    let records = c.records in let bindings = c.bindings in (m', rw e (ground arith), c)
