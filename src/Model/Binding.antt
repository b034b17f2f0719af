-- ===== src/Model/Binding.antt =====
-- The checks of `bind` and its end, `attach`, under the invariant (lib/model.cpp).
use mathlib.Core.Path.{fun_ext}
use ioa.Prelude.{
  ℕ, ◌+◌, ◌≡◌, Bool, refl, sym, subst, true, false, ◌&&◌, List, [], ◌∷◌, none, some, arith, ◌==◌,
  is_some, All, Option-cases, inl, inr,
}
use ioa.FinSet
use ioa.FinMap
use ioa.Outcome.{done}
use ioa.Event.{Action}
use ioa.Executor.{
  Binding, Output, bound_by, set_parameter, same, involves_output, involves_binding,
  involves_input_automaton, construct,
}
use ioa.Executor
use ioa.Executor.Bindings.{one, count, count_outputs, count-insert, count-nil}
use ioa.AutomatonRecord.{AutomatonRecord}
use ioa.Model.{Model, record_of, perform_all}
use ioa.Model.Invariant.{census, keys, Family, Registry, Linked, Inv, IsSound, IsWired}
use ioa.Model.Effects.{construct-one}
use ioa.Model.Listing.{
  find_if-test, find_if-All, replace_first-All, replace_first-any, replace_first-count,
}
use ioa.Model.Bind.{
  fetch_instance, find_if, replace_first, refusal, attach, fresh_output, has_input_automaton,
  any_output, binding_equal, binding_output_equal,
}

-- What the checks of `bind` establish.
pub record Passed (m : Model) (output input : Action) : Type 0 where
  output_there : is_some (census m output.aid) ≡ true
  input_there : is_some (census m input.aid) ≡ true
  apart : (output.aid == input.aid) ≡ false
  free : has_input_automaton input.aid (find_if (binding_output_equal output) m.bindings) ≡ false

fetch_instance-there :
    (m : Model) (x : Action) → fetch_instance m x ≡ true → is_some (census m x.aid) ≡ true
unfolding fetch_instance
fetch_instance-there m x e = ground arith

pub refusal-Passed :
    (m : Model) (output input : Action) (binder : ℕ)
    → refusal m output input binder ≡ none
    → Passed m output input
unfolding refusal
refusal-Passed m output input binder e = record {
  output_there = fetch_instance-there m output (ground arith);
  input_there = fetch_instance-there m input (ground arith);
  apart = ground arith;
  free = ground arith;
}

same-aid : (x y : Action) → same x y ≡ true → x.aid ≡ y.aid
unfolding same
same-aid x y e = ground arith

involves_output-aid : (o : Output) (x : Action) → involves_output o x ≡ true → o.action.aid ≡ x.aid
unfolding involves_output
involves_output-aid o x e = same-aid o.action x e

-- The model to which the records of the executors were changed, and one bind key added.
record Attaches (m : Model) (output input : Action) (binder key : ℕ) (bindings : List Output)
    : Type 0 where
  made : any_output (binding_equal output input binder) bindings ≡ true
  wired : All (IsWired (census m)) bindings
  counted :
      (j k : ℕ)
      → count_outputs j k bindings ≡ count_outputs j k m.bindings + one (binder == j && key == k)

same_refl : (x : Action) → same x x ≡ true
unfolding same
same_refl x = ground arith

found_first :
    (p : Output → Bool) (o : Output) (os : List Output) → p o ≡ true → any_output p (o ∷ os) ≡ true
unfolding any_output find_if
found_first p o os e = rw e refl

-- An executor that takes one more input.
bound_output : Output → Action → ℕ → ℕ → Output
bound_output o input binder key = (Executor.bind o input binder key).0

module _ (rank : ℕ → ℕ) (m : Model) (v : Inv rank m) (output input : Action) (binder key : ℕ)
    (checks : Passed m output input) where
  new_binding : Binding
  new_binding = record { input = input; binder = binder; key = key }

  bound_output-IsWired :
      (o : Output)
      → o.action.aid ≡ output.aid
      → FinMap.lookup input.aid o.records ≡ none
      → All (IsSound (census m) o.action.aid) o.records
      → IsWired (census m) (bound_output o input binder key)
  unfolding bound_output Executor.bind
  bound_output-IsWired o same_aid unbound sound = record {
    output_alive = rw same_aid checks.output_there;
    bound = FinMap.insert-ne_nil input.aid _ o.records unbound;
    sound =
        FinMap.insert-All (IsSound (census m) o.action.aid) input.aid _ o.records
          (record {
            place = refl;
            input_alive = checks.input_there;
            not_output = λ e. let apart = checks.apart in ground arith;
          })
          sound;
  }

  bound_output-count :
      (j k : ℕ) (o : Output)
      → FinMap.lookup input.aid o.records ≡ none
      → count j k (bound_output o input binder key).records
        ≡ count j k o.records + one (binder == j && key == k)
  unfolding bound_output Executor.bind
  bound_output-count j k o unbound = count-insert j k input.aid _ o.records unbound

-- Where the automata are the same, the first two parts of the invariant are.
pub Inv-framed :
    (rank : ℕ → ℕ) (m m' : Model)
    → ((a : ℕ) → census m' a ≡ census m a)
    → m'.aids ≡ m.aids
    → m'.instances ≡ m.instances
    → Linked (census m) (keys m') m'.bindings
    → Inv rank m
    → Inv rank m'
Inv-framed rank m m' same ea ei linked v = record {
  family = subst (Family rank) (sym (fun_ext same)) v.family;
  registry =
      subst (λ f. Registry f m'.aids m'.instances) (sym (fun_ext same)) (rw (ea, ei) v.registry);
  linked = subst (λ f. Linked f (keys m') m'.bindings) (sym (fun_ext same)) linked;
}

-- What a binding that is made comes to: the automata are those of before, there is one binding more,
-- that of the binder and the key, and a search for the binding finds it.
pub record Bound (rank : ℕ → ℕ) (m : Model) (output input : Action) (binder key : ℕ) (m' : Model)
    : Type 0 where
  pub made : any_output (binding_equal output input binder) m'.bindings ≡ true
  pub inv : Inv rank m'
  pub automata : (a : ℕ) → census m' a ≡ census m a
  pub counted :
      (j k : ℕ)
      → count_outputs j k m'.bindings ≡ count_outputs j k m.bindings + one (binder == j && key == k)
  pub bind_key : keys m' binder key ≡ 1

module _ (rank : ℕ → ℕ) (m : Model) (v : Inv rank m) (output input : Action) (binder key : ℕ)
    (checks : Passed m output input) (r : AutomatonRecord) (there : record_of binder m ≡ some r)
    (new : FinSet.contains key r.bind_keys ≡ false) where
  attached :
      (x : Action) (bs : List Output)
      → Attaches m output input binder key bs
      → (m' : Model) × (perform_all
            (construct x (record { input = input; binder = binder; key = key }))
            (record m { bindings = bs })
          ≡ done m')
        × Bound rank m output input binder key m'
  attached x bs a =
      let (m', e, fr, ks) =
        construct-one x (record { input = input; binder = binder; key = key })
          (record m { bindings = bs }) r there new in
      let counted : (j k : ℕ)
          → count_outputs j k m'.bindings
            ≡ count_outputs j k m.bindings + one (binder == j && key == k) =
        λ j k. rw fr.bindings (a.counted j k) in
      let balanced : (j k : ℕ) → count_outputs j k m'.bindings ≡ keys m' j k = λ j k.
        let add = ks j k in
        let before = v.linked.balanced j k in let after = counted j k in ground arith in
      (
        m',
        e,
        record {
          made = rw fr.bindings a.made;
          inv =
              Inv-framed rank m m' fr.same fr.aids fr.instances
                (record { wired = rw fr.bindings a.wired; balanced = balanced }) v;
          automata = fr.same;
          counted = counted;
          bind_key = let add = ks binder key in ground arith;
        },
      )

  bound_output-hit :
      (o : Output)
      → involves_output o output ≡ true
      → FinMap.lookup input.aid o.records ≡ none
      → involves_binding (bound_output o input binder key) output input binder ≡ true
  unfolding bound_output Executor.bind involves_output involves_binding
  bound_output-hit o hit unbound =
      let b : Binding = record { input = input; binder = binder; key = key } in
      let there = FinMap.lookup-insert input.aid input.aid b o.records unbound in
      let self = same_refl input in ground arith

  fresh_Attaches :
      Attaches m output input binder key
        (bound_output (fresh_output output) input binder key ∷ m.bindings)
  unfolding count_outputs Executor.clone involves_output
  fresh_Attaches = record {
    made =
        found_first (binding_equal output input binder) _ m.bindings
          (bound_output-hit (fresh_output output) (same_refl output) (FinMap.lookup-nil input.aid));
    wired = (
      bound_output-IsWired rank m v output input binder key checks (fresh_output output) refl
          (FinMap.lookup-nil input.aid) tt,
      v.linked.wired,
    );
    counted = λ j k.
        let n =
          bound_output-count rank m v output input binder key checks j k (fresh_output output)
            (FinMap.lookup-nil input.aid) in
        let z : count j k [] ≡ 0 = count-nil j k in omega arith;
  }

  found_Attaches :
      (o : Output)
      → find_if (binding_output_equal output) m.bindings ≡ some o
      → Attaches m output input binder key
          (replace_first (binding_output_equal output) (bound_output o input binder key) m.bindings)
  found_Attaches o e =
      let p = λ (c : Output). involves_output c output in
      let w = find_if-All p (IsWired (census m)) o m.bindings e v.linked.wired in
      let hit = find_if-test p o m.bindings e in
      let unbound : FinMap.lookup input.aid o.records ≡ none = unbound_there o (checks.free) e in
      let w' =
        bound_output-IsWired rank m v output input binder key checks o
          (involves_output-aid o output hit) unbound w.sound in
      record {
        made =
            replace_first-any (binding_equal output input binder) p o
              (bound_output o input binder key) m.bindings e (bound_output-hit o hit unbound);
        wired =
            replace_first-All p (IsWired (census m)) (bound_output o input binder key) m.bindings w'
              v.linked.wired;
        counted = λ j k.
            let n = bound_output-count rank m v output input binder key checks j k o unbound in
            let c = replace_first-count p j k o (bound_output o input binder key) m.bindings e in
            omega arith;
      }
    where
      unbound_there :
          (o : Output)
          → has_input_automaton input.aid (find_if (binding_output_equal output) m.bindings) ≡ false
          → find_if (binding_output_equal output) m.bindings ≡ some o
          → FinMap.lookup input.aid o.records ≡ none
      unbound_there o f e = unfold involves_input_automaton in ground arith

  pub attach_total :
      (m' : Model) × (attach m output input binder key ≡ done m')
      × Bound rank m output input binder key m'
  unfolding attach Executor.bind bound_output
  attach_total = elim (Option-cases (find_if (binding_output_equal output) m.bindings)) [
    | inl e ↦ let (m', d, b) = attached output _ fresh_Attaches in (m', rw (e, attach) d, b)
    | inr (o, e) ↦
        let (m', d, b) = attached o.action _ (found_Attaches o e) in (m', rw (e, attach) d, b)
  ]
