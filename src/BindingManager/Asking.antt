-- ===== src/BindingManager/Asking.antt =====
-- How often a manager (include/ioa/binding_manager.hpp) asks for its binding.
use ioa.Prelude.{
  ℕ, ◌+◌, ◌≡◌, refl, true, List, [], ◌∷◌, ◌++◌, ◌||◌, ◌==◌, Option, none, some, arith, Bool-cases,
  inl, inr, ◌∙◌, sym, subst,
}
use ioa.Outcome.{Outcome, fault, done, Outcome-cases}
use ioa.Executor.Bindings.{one}
use ioa.BindingManager.{
  BindingManager, Call, asks_bind, asks_unbind, notifies, is_ready, init, observe_output,
  observe_input, set_output_handle, set_input_handle, Happening, output_told, input_told,
  output_gone, input_gone, unbinds, answers_bound, answers_unbound, happen, run, unbind, on_bound,
  on_unbound,
}

-- How often a list of calls asks for the binding, and for its end.
abbrev pub count_bind : List Call → ℕ
count_bind [] = 0
count_bind (asks_bind ∷ cs) = 1 + count_bind cs
count_bind (_ ∷ cs) = count_bind cs

abbrev pub count_unbind : List Call → ℕ
count_unbind [] = 0
count_unbind (asks_unbind ∷ cs) = 1 + count_unbind cs
count_unbind (_ ∷ cs) = count_unbind cs

-- An observer that listens has not set its handle.
record IsWaiting (m : BindingManager) : Type 0 where
  output_open : m.output_listens ≡ true → m.output_handle ≡ none
  input_open : m.input_listens ≡ true → m.input_handle ≡ none

count_bind-append : (xs ys : List Call) → count_bind (xs ++ ys) ≡ count_bind xs + count_bind ys
count_bind-append [] ys = omega arith
count_bind-append (asks_bind ∷ xs) ys = omega (arith, count_bind-append xs ys)
count_bind-append (asks_unbind ∷ xs) ys = count_bind-append xs ys
count_bind-append (notifies ∷ xs) ys = count_bind-append xs ys

count_unbind-append :
    (xs ys : List Call) → count_unbind (xs ++ ys) ≡ count_unbind xs + count_unbind ys
count_unbind-append [] ys = omega arith
count_unbind-append (asks_bind ∷ xs) ys = count_unbind-append xs ys
count_unbind-append (asks_unbind ∷ xs) ys = omega (arith, count_unbind-append xs ys)
count_unbind-append (notifies ∷ xs) ys = count_unbind-append xs ys

payload :
    {x y : BindingManager × List Call}
    → ◌≡◌ {A = Outcome (BindingManager × List Call)} (done x) (done y)
    → x ≡ y
payload e = ground arith

-- What a step does to the count of requests.
record Asks (m m' : BindingManager) (calls : List Call) : Type 0 where
  waiting : IsWaiting m'
  asked : one (is_ready m') ≡ count_bind calls + one (is_ready m)
  ended : (is_ready m' || count_unbind calls == 0) ≡ true

init-Asks :
    (output input : Option ℕ)
    → IsWaiting (init output input).0
      × (count_bind (init output input).1 ≡ one (is_ready (init output input).0))
      × (count_unbind (init output input).1 ≡ 0)
unfolding init observe_output observe_input set_output_handle set_input_handle
init-Asks none none = (ground arith)
init-Asks none (some i) = (ground arith)
init-Asks (some o) none = (ground arith)
init-Asks (some o) (some i) = (ground arith)

happen-Asks :
    (h : Happening) (m m' : BindingManager) (calls : List Call)
    → IsWaiting m
    → happen h m ≡ done (m', calls)
    → Asks m m' calls
unfolding happen set_output_handle set_input_handle unbind on_bound on_unbound
happen-Asks (output_told h) m m' calls w e =
    let a = w.output_open in let b = w.input_open in ground arith
happen-Asks (input_told h) m m' calls w e =
    let a = w.output_open in let b = w.input_open in ground arith
happen-Asks output_gone m m' calls w e =
    let a = w.output_open in let b = w.input_open in ground arith
happen-Asks input_gone m m' calls w e =
    let a = w.output_open in let b = w.input_open in ground arith
happen-Asks unbinds m m' calls w e = let a = w.output_open in let b = w.input_open in ground arith
happen-Asks (answers_bound r) m m' calls w e =
    let a = w.output_open in let b = w.input_open in ground arith
happen-Asks (answers_unbound r) m m' calls w e =
    let a = w.output_open in let b = w.input_open in ground arith

waiting_after :
    (h : Happening) (m m' : BindingManager) (calls : List Call)
    → IsWaiting m
    → happen h m ≡ done (m', calls)
    → IsWaiting m'
waiting_after h m m' calls w e = let s = happen-Asks h m m' calls w e in s.waiting

clash :
    {x : BindingManager × List Call}
    → ◌≡◌ {A = Outcome (BindingManager × List Call)} fault (done x)
    → ⊥
clash e = cc e

joined :
    (m m' m1 m2 : BindingManager) (calls now later : List Call)
    → Asks m m1 now
    → Asks m1 m2 later
    → ◌≡◌ {A = Outcome (BindingManager × List Call)} (done (m2, now ++ later)) (done (m', calls))
    → Asks m m' calls
joined m m' m1 m2 calls now later s t e =
    subst (λ x. Asks m x.0 x.1) (payload e)
      (record {
        waiting = t.waiting;
        asked = let a = s.asked in let b = t.asked in omega (arith, count_bind-append now later);
        ended =
            let a = s.ended in
            let b = t.ended in let c = t.asked in ground (arith, count_unbind-append now later);
      })

run-Asks :
    (hs : List Happening) (m m' : BindingManager) (calls : List Call)
    → IsWaiting m
    → run hs m ≡ done (m', calls)
    → Asks m m' calls
unfolding run
run-Asks [] m m' calls w e = let a = w.output_open in let b = w.input_open in ground arith
run-Asks (h ∷ hs) m m' calls w e = elim (Bool-cases m.alive) [
  | inr dead ↦ absurd (ground arith)
  | inl alive ↦ elim (Outcome-cases (happen h m)) [
    | inl f ↦ absurd (ground arith)
    | inr ((m1, now), first) ↦ elim (Outcome-cases (run hs m1)) [
      | inl f ↦ absurd (clash (sym (simp alive (rw first (rw f refl))) ∙ e))
      | inr ((m2, later), second) ↦
          joined m m' m1 m2 calls now later (happen-Asks h m m1 now w first)
            (run-Asks hs m1 m2 later (waiting_after h m m1 now w first) second)
            (sym (simp alive (rw first (rw second refl))) ∙ e)
    ]
  ]
]

-- From its construction on, whatever handles its two observables have then and whatever happens
-- without a fault, a manager has asked its automaton for the binding exactly once if both handles
-- are known, and not at all otherwise; and it has asked for the end of the binding only if both are
-- known.
pub init-asks_once :
    (output input : Option ℕ) (hs : List Happening) (m : BindingManager) (calls : List Call)
    → run hs (init output input).0 ≡ done (m, calls)
    → (count_bind ((init output input).1 ++ calls) ≡ one (is_ready m))
      × ((is_ready m || count_unbind ((init output input).1 ++ calls) == 0) ≡ true)
init-asks_once output input hs m calls e =
    let (w, asked, ended) = init-Asks output input in
    let r = run-Asks hs (init output input).0 m calls w e in
    let a = r.asked in
    let b = r.ended in
    rw
      (
        count_bind-append (init output input).1 calls,
        count_unbind-append (init output input).1 calls,
      )
      (omega arith, ground arith)
