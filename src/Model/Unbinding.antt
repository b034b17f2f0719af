-- ===== src/Model/Unbinding.antt =====
-- `unbind` of lib/model.cpp under the invariant.
use ioa.Prelude.{
  ℕ, ◌+◌, ◌≡◌, refl, Bool, true, false, ◌&&◌, List, [], ◌∷◌, some, arith, ◌==◌, is_some, All,
  Bool-cases, Option-cases, inl, inr, length, ◌≤◌,
}
use ioa.Outcome.{done}
use ioa.SequentialSet.{has}
use ioa.Event.{unbound_from, bind_key_dne}
use ioa.Executor.{
  Binding, Output, Effect, bound_by, involves_aid_key, is_empty, destruct, unbind_first,
  any_bound_by,
}
use ioa.Executor
use ioa.Executor.Bindings.{
  one, count, count_outputs, count-nil, Unbinds, unbind_first-Unbinds, unbind_first-All,
}
use ioa.Model.{Model, Status, success, failure, tell}
use ioa.Model.Invariant.{census, keys, Inv, IsSound, IsWired}
use ioa.Model.Effects.{Frame, destruct-one}
use ioa.Model.Binding.{Inv-framed}
use ioa.Model.Listing.{
  find_if-test, find_if-All, replace_first-All, replace_first-count, remove_first-All,
  remove_first-count,
}
use ioa.Model.Bind.{find_if, replace_first, remove_first, unbind, unbind_found}

-- What an unbinding that is made comes to.
pub record Unbound (rank : ℕ → ℕ) (m : Model) (binder key : ℕ) (m' : Model) : Type 0 where
  pub inv : Inv rank m'
  pub automata : (a : ℕ) → census m' a ≡ census m a
  pub counted :
      (j k : ℕ)
      → count_outputs j k m'.bindings + one (binder == j && key == k) ≡ count_outputs j k m.bindings

abbrev here : ℕ → ℕ → Output → Bool
here binder key o = involves_aid_key o binder key

unbound_output : Output → ℕ → ℕ → Output
unbound_output o binder key = (Executor.unbind o binder key).0

counted_key :
    (binder key : ℕ) (b : Binding)
    → bound_by binder key b ≡ true
    → (b.binder ≡ binder) × (b.key ≡ key)
counted_key binder key b e = ground arith

count-empty : (j k : ℕ) (m : List (ℕ × Binding)) → (length m == 0) ≡ true → count j k m ≡ 0
count-empty j k [] e = count-nil j k
count-empty j k (x ∷ m) e = absurd (ground arith)

count_outputs-le :
    (j k : ℕ) (p : Output → Bool) (o : Output) (os : List Output)
    → find_if p os ≡ some o
    → count j k o.records ≤ count_outputs j k os
count_outputs-le j k p o os e = omega (arith, remove_first-count p j k o os e)

module _ (rank : ℕ → ℕ) (m : Model) (v : Inv rank m) (binder key : ℕ) (o : Output)
    (found : find_if (here binder key) m.bindings ≡ some o) where
  found-IsWired : IsWired (census m) o
  found-IsWired =
      find_if-All (here binder key) (IsWired (census m)) o m.bindings found v.linked.wired

  out : Unbinds o.action binder key o.records (unbind_first o.action binder key o.records)
  out = unbind_first-Unbinds o.action binder key o.records (
      let hit = find_if-test (here binder key) o m.bindings found in unfold involves_aid_key in hit)

  covered_key : 1 ≤ keys m out.binding.binder out.binding.key
  covered_key =
      let b = out.binding in
      let c = out.counts b.binder b.key in
      let le = count_outputs-le b.binder b.key (here binder key) o m.bindings found in
      let balanced = v.linked.balanced b.binder b.key in ground arith

  -- What is left of the list of executors.
  abbrev Left : List Output → Type 0
  Left bs =
      All (IsWired (census m)) bs
      × ((j k : ℕ)
          → count_outputs j k bs + one (bound_by j k out.binding) ≡ count_outputs j k m.bindings)

  removed-Left :
      is_empty (unbound_output o binder key) ≡ true
      → Left (remove_first (here binder key) m.bindings)
  unfolding unbound_output Executor.unbind is_empty
  removed-Left e = (
    remove_first-All (here binder key) (IsWired (census m)) m.bindings v.linked.wired,
    λ j k.
        let c = out.counts j k in
        let r = remove_first-count (here binder key) j k o m.bindings found in
        let z = count-empty j k (unbind_first o.action binder key o.records).0 e in omega arith,
  )

  replaced-Left :
      is_empty (unbound_output o binder key) ≡ false
      → Left (replace_first (here binder key) (unbound_output o binder key) m.bindings)
  unfolding unbound_output Executor.unbind is_empty
  replaced-Left e = (
    replace_first-All (here binder key) (IsWired (census m)) _ m.bindings
        (record {
          output_alive = found-IsWired.output_alive;
          bound = λ nil. ground arith;
          sound =
              unbind_first-All (IsSound (census m) o.action.aid) o.action binder key o.records
                found-IsWired.sound;
        })
        v.linked.wired,
    λ j k.
        let c = out.counts j k in
        let r =
          replace_first-count (here binder key) j k o (unbound_output o binder key) m.bindings
            found in
        omega arith,
  )

  settled :
      (m1 : Model) (bs : List Output)
      → Frame m m1
      → ((j k : ℕ)
          → keys m1 j k + one (j == out.binding.binder && out.binding.key == k) ≡ keys m j k)
      → Left bs
      → Unbound rank m binder key (record m1 { bindings = bs })
  settled m1 bs fr ks (wired, counts) =
      let (eb, ek) = counted_key binder key out.binding out.bound_here in
      record {
        inv =
            Inv-framed rank m (record m1 { bindings = bs }) fr.same fr.aids fr.instances
              (record {
                wired = wired;
                balanced = λ j k.
                    let c = counts j k in
                    let s = ks j k in let before = v.linked.balanced j k in ground arith;
              })
              v;
        automata = fr.same;
        counted = λ j k. let c = counts j k in ground arith;
      }

  unbind_found_total :
      (m' : Model) × (unbind_found m binder key (some o) ≡ done (success, m'))
      × Unbound rank m binder key m'
  unfolding unbound_output Executor.unbind
  unbind_found_total =
      let (m1, e, fr, ks) = destruct-one o.action out.binding m covered_key in
      elim (Bool-cases (is_empty (unbound_output o binder key))) [
        | inl empty ↦ (
          record m1 { bindings = remove_first (here binder key) m.bindings },
          rw (out.effects, e, empty, fr.bindings) refl,
          settled m1 _ fr ks (removed-Left empty),
        )
        | inr more ↦ (
          record m1 {
            bindings = replace_first (here binder key) (unbound_output o binder key) m.bindings;
          },
          rw (out.effects, e, more, fr.bindings) refl,
          settled m1 _ fr ks (replaced-Left more),
        )
      ]

abbrev pub has_binding : Model → (binder key : ℕ) → Bool
has_binding m binder key = is_some (find_if (here binder key) m.bindings)

pub data Unbinding (rank : ℕ → ℕ) (m : Model) (binder key : ℕ) (m' : Model) : Status → Type 0 where
  refused :
      (has m.aids binder && has_binding m binder key) ≡ false
      → m'.bindings ≡ m.bindings
      → m'.records ≡ m.records
      → Inv rank m'
      → Unbinding rank m binder key m' failure
  unbinds :
      (has m.aids binder && has_binding m binder key) ≡ true
      → Unbound rank m binder key m'
      → Unbinding rank m binder key m' success

-- Under the invariant, unbinding returns, whatever the binder and the key. With no such binder, or
-- no binding that it made under the key, it fails and leaves the bindings and the automata as they
-- are. Otherwise it succeeds: there is exactly one binding less, one of the binder and the key. The
-- invariant holds again.
pub unbind_total :
    (rank : ℕ → ℕ) (m : Model) (binder key : ℕ)
    → Inv rank m
    → (status : Status) × (m' : Model) × (unbind m binder key ≡ done (status, m'))
      × Unbinding rank m binder key m' status
unfolding unbind
unbind_total rank m binder key v = elim (Bool-cases (has m.aids binder)) [
  | inr dead ↦ (failure, m, rw dead refl, refused (rw dead refl) refl refl v)
  | inl alive ↦ elim (Option-cases (find_if (here binder key) m.bindings)) [
    | inl absent ↦
        let m' = tell m (unbound_from binder bind_key_dne key) in
        (
          failure,
          m',
          rw (alive, absent) refl,
          refused (rw (alive, absent) refl) refl refl
              (Inv-framed rank m m' (λ a. refl) refl refl v.linked v),
        )
    | inr (o, found) ↦
        let (m', e, u) = unbind_found_total rank m v binder key o found in
        (success, m', rw (alive, found) e, unbinds (rw (alive, found) refl) u)
  ]
]
