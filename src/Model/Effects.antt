-- ===== src/Model/Effects.antt =====
-- What the constructors and the destructors of binding records do to a model: bind keys come and
-- go, and nothing else changes but the log.
use ioa.Prelude.{
  ℕ, ◌+◌, ◌≤◌, ◌≡◌, refl, ◌∙◌, Bool, true, false, ◌&&◌, List, [], ◌∷◌, ◌++◌, Option, none, some,
  arith, ◌==◌, if◌then◌else◌, Option-cases, inl, inr,
}
use ioa.FinSet.{contains-insert, contains-erase}
use ioa.FinSet
use ioa.FinMap.{lookup-modify, count_keys-modify}
use ioa.FinMap
use ioa.Outcome.{done, ◌>>=◌, Outcome-cases}
use ioa.Event.{
  Action, bound_to, unbound_from, bound, unbound, output_bound, input_bound, output_unbound,
  input_unbound,
}
use ioa.Executor.{Binding, Effect, construct, destruct}
use ioa.Executor.Bindings.{one, count_removed, destruct_each}
use ioa.AutomatonRecord.{AutomatonRecord}
use ioa.AutomatonRecord
use ioa.Model.{
  Model, tell, update, perform, perform_all, record_of, add_bind_key_of, remove_bind_key_of,
}
use ioa.Model.Invariant.{census, bare, keys, key_count}

-- What stays.
pub record Frame (m m' : Model) : Type 0 where
  pub aids : m'.aids ≡ m.aids
  pub instances : m'.instances ≡ m.instances
  pub bindings : m'.bindings ≡ m.bindings
  pub same : (a : ℕ) → census m' a ≡ census m a
  pub counts : (p : ℕ → Bool) → FinMap.count_keys p m'.records ≡ FinMap.count_keys p m.records

pub Frame-refl : (m : Model) → Frame m m
Frame-refl m = record {
  aids = refl;
  instances = refl;
  bindings = refl;
  same = λ a. refl;
  counts = λ p. refl;
}

pub Frame-trans : {m n o : Model} → Frame m n → Frame n o → Frame m o
Frame-trans f g = record {
  aids = g.aids ∙ f.aids;
  instances = g.instances ∙ f.instances;
  bindings = g.bindings ∙ f.bindings;
  same = λ a. g.same a ∙ f.same a;
  counts = λ p. g.counts p ∙ f.counts p;
}

-- A change of the bind keys of one record.
abbrev rekeyed : ℕ → (AutomatonRecord → AutomatonRecord) → Model → Model
rekeyed binder f m = record m { records = FinMap.modify binder f m.records }

rekeyed-Frame :
    (binder : ℕ) (f : AutomatonRecord → AutomatonRecord) (m m' : Model)
    → ((r : AutomatonRecord) → bare (f r) ≡ bare r)
    → m'.aids ≡ m.aids
    → m'.instances ≡ m.instances
    → m'.bindings ≡ m.bindings
    → m'.records ≡ FinMap.modify binder f m.records
    → Frame m m'
rekeyed-Frame binder f m m' keep ea ei eb er = record {
  aids = ea;
  instances = ei;
  bindings = eb;
  same = λ a. rw (er, lookup-modify a binder f m.records) (kept a (FinMap.lookup a m.records));
  counts = λ p. rw er (count_keys-modify p binder f m.records);
}
  where
    kept :
        (a : ℕ) (o : Option AutomatonRecord)
        → FinMap.opt_map bare (if a == binder then FinMap.opt_map f o else o)
          ≡ FinMap.opt_map bare o
    kept a none = ground arith
    kept a (some r) = ground (arith, keep r)

present :
    (m : Model) (binder key n : ℕ)
    → n + 1 ≤ keys m binder key
    → (r : AutomatonRecord) × (record_of binder m ≡ some r)
present m binder key n h = elim (Option-cases (record_of binder m)) [
  | inl e ↦ absurd (ground arith)
  | inr found ↦ found
]

update_done :
    (a : ℕ) (f : AutomatonRecord → AutomatonRecord) (m : Model) {r : AutomatonRecord}
    → record_of a m ≡ some r
    → update a f m ≡ done (rekeyed a f m)
unfolding update
update_done a f m e = rw (e, update)

removed_key :
    (o : Option AutomatonRecord) (same : Bool) (k key : ℕ)
    → (same ≡ true → 1 ≤ key_count o key)
    → key_count (if same then FinMap.opt_map (AutomatonRecord.remove_bind_key key) o else o) k
        + one (same && key == k)
      ≡ key_count o k
unfolding AutomatonRecord.remove_bind_key
removed_key none same k key h = ground (arith, h)
removed_key (some r) same k key h = ground (arith, h, contains-erase k key r.bind_keys)

added_key :
    (o : Option AutomatonRecord) (same : Bool) (k key : ℕ)
    → (same ≡ true
        → (r : AutomatonRecord) × (o ≡ some r) × (FinSet.contains key r.bind_keys ≡ false))
    → key_count (if same then FinMap.opt_map (AutomatonRecord.add_bind_key key) o else o) k
      ≡ key_count o k + one (same && key == k)
unfolding AutomatonRecord.add_bind_key
added_key none same k key h = ground (arith, h)
added_key (some r) same k key h = ground (arith, h, contains-insert k key r.bind_keys)

-- The destructor of one record: its bind key goes.
pub destruct-one :
    (x : Action) (b : Binding) (m : Model)
    → 1 ≤ keys m b.binder b.key
    → (m' : Model) × (perform_all (destruct x b) m ≡ done m')
      × Frame m m'
      × ((j k : ℕ) → keys m' j k + one (j == b.binder && b.key == k) ≡ keys m j k)
unfolding perform_all perform remove_bind_key_of destruct
destruct-one x b m h =
    let (r, e) = present m b.binder b.key 0 h in
    let f = AutomatonRecord.remove_bind_key b.key in
    (
      tell
          (tell (tell (rekeyed b.binder f m) (unbound_from b.binder unbound b.key))
            (output_unbound x))
          (input_unbound b.input),
      rw (update_done b.binder f m e) refl,
      rekeyed-Frame b.binder f m _ (λ r'. unfold AutomatonRecord.remove_bind_key in refl) refl refl
          refl refl,
      λ j k.
          rw (lookup-modify j b.binder f m.records)
            (removed_key (record_of j m) (j == b.binder) k b.key (λ same. ground (arith, same))),
    )

-- The constructor of one record: its bind key comes.
pub construct-one :
    (x : Action) (b : Binding) (m : Model) (r : AutomatonRecord)
    → record_of b.binder m ≡ some r
    → FinSet.contains b.key r.bind_keys ≡ false
    → (m' : Model) × (perform_all (construct x b) m ≡ done m')
      × Frame m m'
      × ((j k : ℕ) → keys m' j k ≡ keys m j k + one (j == b.binder && b.key == k))
unfolding perform_all perform add_bind_key_of construct
construct-one x b m r e new =
    let f = AutomatonRecord.add_bind_key b.key in
    (
      tell (tell (tell (rekeyed b.binder f m) (bound_to b.binder bound b.key)) (output_bound x))
          (input_bound b.input),
      rw (update_done b.binder f m e) refl,
      rekeyed-Frame b.binder f m _ (λ r'. unfold AutomatonRecord.add_bind_key in refl) refl refl
          refl refl,
      λ j k. rw (lookup-modify j b.binder f m.records) (
          added_key (record_of j m) (j == b.binder) k b.key
            (λ same. (r, ground (arith, same), new))),
    )

perform_all-append :
    (es fs : List Effect) (m : Model)
    → perform_all (es ++ fs) m ≡ (perform_all es m >>= perform_all fs)
unfolding perform_all
perform_all-append [] fs m = refl
perform_all-append (e ∷ es) fs m = elim (Outcome-cases (perform e m)) [
  | inl f ↦ rw f
  | inr (m', d) ↦ rw d (perform_all-append es fs m')
]

-- The destructors of any records that the bind keys cover: none of them faults.
pub destruct_all_keys :
    (bs : List (Action × Binding)) (m : Model)
    → ((j k : ℕ) → count_removed j k bs ≤ keys m j k)
    → (m' : Model) × (perform_all (destruct_each bs) m ≡ done m')
      × Frame m m'
      × ((j k : ℕ) → keys m' j k + count_removed j k bs ≡ keys m j k)
unfolding destruct_each count_removed perform_all
destruct_all_keys [] m h = (m, refl, Frame-refl m, λ j k. omega arith)
destruct_all_keys ((x, b) ∷ bs) m h =
    let (m1, e1, f1, k1) = destruct-one x b m (ground (arith, h b.binder b.key)) in
    let (m2, e2, f2, k2) = destruct_all_keys bs m1 (λ j k. ground (arith, h j k, k1 j k)) in
    (
      m2,
      rw (perform_all-append (destruct x b) (destruct_each bs) m, e1) e2,
      Frame-trans f1 f2,
      λ j k. ground (arith, k1 j k, k2 j k),
    )
