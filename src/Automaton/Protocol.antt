-- ===== src/Automaton/Protocol.antt =====
-- An automaton (lib/automaton.cpp) through sequences of calls and system inputs, and its
-- destructor.
use ioa.Prelude.{
  ℕ, ◌+◌, ◌≤◌, ◌≡◌, inl, inr, Bool, true, false, List, [], ◌∷◌, ◌++◌, arith, map, ◌==◌,
  if◌then◌else◌,
}
use ioa.FinSet.{contains}
use ioa.Outcome.{Outcome, fault, done, >>=-eq-done, Outcome-cases}
use ioa.Requests.Valid.{
  add-IsValid, withdraw-IsValid, failed-IsValid, succeeded-IsValid, finished-IsValid,
  send_first-IsValid, undo_first-IsValid, none_yet-IsValid,
}
use ioa.Event.{
  Created, create_key_exists, instance_exists, automaton_created, BoundResult, bind_key_exists,
  bound, UnboundResult, bind_key_dne, unbound, Destroyed, create_key_dne, automaton_destroyed,
}
use ioa.Requests.{Requests, add, withdraw, send_first, undo_first, failed, succeeded, finished}
use ioa.Requests.Phases.{Phase, withdrawn, closing, undoing, phase, IsValid}
use ioa.Automaton.{
  Automaton, Call, helper_destroyed, helper_unbound, init, schedule, create, bind, unbind, destroy,
  sys_create_effect, sys_bind_effect, sys_unbind_effect, sys_destroy_effect, sys_created_effect,
  sys_bound_effect, sys_unbound_effect, sys_destroyed_effect, destruct, tell_all,
}

-- What may happen to an automaton: a call of one of its methods, one of its system outputs, or the
-- answer to one.
pub data Input : Type 0 where
  creates binds unbinds destroys : (helper : ℕ) → Input
  sends_create sends_bind sends_unbind sends_destroy : Input
  is_created : Created → (helper aid : ℕ) → Input
  is_bound : BoundResult → (helper : ℕ) → Input
  is_unbound : UnboundResult → (helper : ℕ) → Input
  is_destroyed : Destroyed → (helper : ℕ) → Input

-- A system output is followed by its schedule function, which is `schedule`.
abbrev output : Outcome (ℕ × Automaton) → Outcome (Automaton × List Call)
output fault = fault
output (done (h, a)) = done (a, schedule a)

-- So is a system input.
abbrev input : Outcome (Automaton × List Call) → Outcome (Automaton × List Call)
input fault = fault
input (done (a, cs)) = done (a, cs ++ schedule a)

unfoldable pub step : Automaton → Input → Outcome (Automaton × List Call)
step a (creates h) = create a h
step a (binds h) = bind a h
step a (unbinds h) = unbind a h
step a (destroys h) = destroy a h
step a sends_create = output (sys_create_effect a)
step a sends_bind = output (sys_bind_effect a)
step a sends_unbind = output (sys_unbind_effect a)
step a sends_destroy = output (sys_destroy_effect a)
step a (is_created result h aid) = input (sys_created_effect a result h aid)
step a (is_bound result h) = input (sys_bound_effect a result h)
step a (is_unbound result h) = input (sys_unbound_effect a result h)
step a (is_destroyed result h) = input (sys_destroyed_effect a result h)

-- The invariant: in each half, every helper is in a phase.
pub record IsConsistent (a : Automaton) : Type 0 where
  pub creates : IsValid a.creates
  pub binds : IsValid a.binds

-- Each method, and each input that comes, is one operation of one half.
module _ (a a' : Automaton) (cs : List Call) (v : IsConsistent a) where
  step-create : (h : ℕ) → create a h ≡ done (a', cs) → IsConsistent a'
  unfolding create
  step-create h e =
      let (r, made, rest) = >>=-eq-done (add a.creates h) _ e in
      let w = add-IsValid a.creates r h v.creates made in ground (arith, w)

  step-bind : (h : ℕ) → bind a h ≡ done (a', cs) → IsConsistent a'
  unfolding bind
  step-bind h e =
      let (r, made, rest) = >>=-eq-done (add a.binds h) _ e in
      let w = add-IsValid a.binds r h v.binds made in ground (arith, w)

  step-unbind : (h : ℕ) → unbind a h ≡ done (a', cs) → IsConsistent a'
  unfolding unbind
  step-unbind h e =
      let ((r, told), made, rest) = >>=-eq-done (withdraw a.binds h) _ e in
      let w = withdraw-IsValid a.binds r h v.binds told made in ground (arith, w)

  step-destroy : (h : ℕ) → destroy a h ≡ done (a', cs) → IsConsistent a'
  unfolding destroy
  step-destroy h e =
      let ((r, told), made, rest) = >>=-eq-done (withdraw a.creates h) _ e in
      let w = withdraw-IsValid a.creates r h v.creates told made in ground (arith, w)

  step-sends_create : output (sys_create_effect a) ≡ done (a', cs) → IsConsistent a'
  unfolding sys_create_effect
  step-sends_create e = elim (Outcome-cases (send_first a.creates)) [
    | inl f ↦ absurd (ground arith)
    | inr ((h, r), made) ↦
        let w = send_first-IsValid a.creates r h v.creates made in ground (arith, w)
  ]

  step-sends_bind : output (sys_bind_effect a) ≡ done (a', cs) → IsConsistent a'
  unfolding sys_bind_effect
  step-sends_bind e = elim (Outcome-cases (send_first a.binds)) [
    | inl f ↦ absurd (ground arith)
    | inr ((h, r), made) ↦ let w = send_first-IsValid a.binds r h v.binds made in ground (arith, w)
  ]

  step-sends_unbind : output (sys_unbind_effect a) ≡ done (a', cs) → IsConsistent a'
  unfolding sys_unbind_effect
  step-sends_unbind e = elim (Outcome-cases (undo_first a.binds)) [
    | inl f ↦ absurd (ground arith)
    | inr ((h, r), made) ↦ let w = undo_first-IsValid a.binds r h v.binds made in ground (arith, w)
  ]

  step-sends_destroy : output (sys_destroy_effect a) ≡ done (a', cs) → IsConsistent a'
  unfolding sys_destroy_effect
  step-sends_destroy e = elim (Outcome-cases (undo_first a.creates)) [
    | inl f ↦ absurd (ground arith)
    | inr ((h, r), made) ↦
        let w = undo_first-IsValid a.creates r h v.creates made in ground (arith, w)
  ]

  step-is_created :
      (result : Created) (h aid : ℕ)
      → input (sys_created_effect a result h aid) ≡ done (a', cs)
      → IsConsistent a'
  unfolding sys_created_effect
  step-is_created create_key_exists h aid e = absurd (cc e)
  step-is_created instance_exists h aid e = elim (Outcome-cases (failed a.creates h)) [
    | inl f ↦ absurd (ground arith)
    | inr (r, made) ↦ let w = failed-IsValid a.creates r h v.creates made in ground (arith, w)
  ]
  step-is_created automaton_created h aid e = elim (Outcome-cases (succeeded a.creates h)) [
    | inl f ↦ absurd (ground arith)
    | inr (r, made) ↦ let w = succeeded-IsValid a.creates r h v.creates made in ground (arith, w)
  ]

  step-is_bound :
      (result : BoundResult) (h : ℕ)
      → input (sys_bound_effect a result h) ≡ done (a', cs)
      → IsConsistent a'
  unfolding sys_bound_effect
  step-is_bound bind_key_exists h e = absurd (cc e)
  step-is_bound bound h e = elim (Outcome-cases (succeeded a.binds h)) [
    | inl f ↦ absurd (ground arith)
    | inr (r, made) ↦ let w = succeeded-IsValid a.binds r h v.binds made in ground (arith, w)
  ]
  step-is_bound result h e = elim (Outcome-cases (failed a.binds h)) [
    | inl f ↦ absurd (ground arith)
    | inr (r, made) ↦ let w = failed-IsValid a.binds r h v.binds made in ground (arith, w)
  ]

  step-is_unbound :
      (result : UnboundResult) (h : ℕ)
      → input (sys_unbound_effect a result h) ≡ done (a', cs)
      → IsConsistent a'
  unfolding sys_unbound_effect
  step-is_unbound bind_key_dne h e = absurd (cc e)
  step-is_unbound unbound h e = elim (Outcome-cases (finished a.binds h)) [
    | inl f ↦ absurd (ground arith)
    | inr (r, made) ↦ let w = finished-IsValid a.binds r h v.binds made in ground (arith, w)
  ]

  step-is_destroyed :
      (result : Destroyed) (h : ℕ)
      → input (sys_destroyed_effect a result h) ≡ done (a', cs)
      → IsConsistent a'
  unfolding sys_destroyed_effect
  step-is_destroyed create_key_dne h e = absurd (cc e)
  step-is_destroyed automaton_destroyed h e = elim (Outcome-cases (finished a.creates h)) [
    | inl f ↦ absurd (ground arith)
    | inr (r, made) ↦ let w = finished-IsValid a.creates r h v.creates made in ground (arith, w)
  ]

  pub step-IsConsistent : (i : Input) → step a i ≡ done (a', cs) → IsConsistent a'
  unfolding step
  step-IsConsistent (creates h) e = step-create h e
  step-IsConsistent (binds h) e = step-bind h e
  step-IsConsistent (unbinds h) e = step-unbind h e
  step-IsConsistent (destroys h) e = step-destroy h e
  step-IsConsistent sends_create e = step-sends_create e
  step-IsConsistent sends_bind e = step-sends_bind e
  step-IsConsistent sends_unbind e = step-sends_unbind e
  step-IsConsistent sends_destroy e = step-sends_destroy e
  step-IsConsistent (is_created result h aid) e = step-is_created result h aid e
  step-IsConsistent (is_bound result h) e = step-is_bound result h e
  step-IsConsistent (is_unbound result h) e = step-is_unbound result h e
  step-IsConsistent (is_destroyed result h) e = step-is_destroyed result h e

-- Any sequence of inputs none of which faults.
pub data Reaches (a : Automaton) : Automaton → Type 0 where
  here : Reaches a a
  next :
      {b c : Automaton} (i : Input) (cs : List Call)
      → Reaches a b
      → step b i ≡ done (c, cs)
      → Reaches a c

Reaches-IsConsistent : {a b : Automaton} → IsConsistent a → Reaches a b → IsConsistent b
Reaches-IsConsistent v here = v
Reaches-IsConsistent {b = c} v (next {b} i cs r e) =
    step-IsConsistent b c cs (Reaches-IsConsistent v r) i e

-- In an automaton that a new one comes to by any calls of its methods, any of its system outputs
-- and any answers to them, no assertion having failed, every helper of either half is in one of the
-- seven phases: in at most one of the sets send, recv and done, in at most one of the undo sets, in
-- the first of these only when in recv or done, in the second only when in done.
pub init-IsConsistent : {a : Automaton} → Reaches init a → IsConsistent a
unfolding init
init-IsConsistent r =
    Reaches-IsConsistent (record { creates = none_yet-IsValid; binds = none_yet-IsValid }) r

-- How often a list of calls has the call that `p` accepts.
abbrev pub tally : (Call → Bool) → List Call → ℕ
tally p [] = 0
tally p (c ∷ cs) = (if p c then 1 else 0) + tally p cs

abbrev pub is_destroyed_call : ℕ → Call → Bool
is_destroyed_call h (helper_destroyed j) = h == j
is_destroyed_call h _ = false

abbrev pub is_unbound_call : ℕ → Call → Bool
is_unbound_call h (helper_unbound j) = h == j
is_unbound_call h _ = false

tally-append : (p : Call → Bool) (xs ys : List Call) → tally p (xs ++ ys) ≡ tally p xs + tally p ys
tally-append p [] ys = omega arith
tally-append p (c ∷ xs) ys = omega (arith, tally-append p xs ys)

tally-map_destroyed :
    (h : ℕ) (xs : List ℕ)
    → contains h xs ≡ true
    → 1 ≤ tally (is_destroyed_call h) (map helper_destroyed xs)
unfolding contains
tally-map_destroyed h [] e = absurd (cc e)
tally-map_destroyed h (x ∷ xs) e = ground (arith, tally-map_destroyed h xs)

tally-map_unbound :
    (h : ℕ) (xs : List ℕ)
    → contains h xs ≡ true
    → 1 ≤ tally (is_unbound_call h) (map helper_unbound xs)
unfolding contains
tally-map_unbound h [] e = absurd (cc e)
tally-map_unbound h (x ∷ xs) e = ground (arith, tally-map_unbound h xs)

-- The phases in which a helper is in two sets.
abbrev pub is_double : Phase → Bool
is_double withdrawn = true
is_double closing = true
is_double undoing = true
is_double _ = false

tally-tell_all :
    (p : Call → Bool) (f : ℕ → Call) (r : Requests) (h : ℕ)
    → ((xs : List ℕ) → contains h xs ≡ true → 1 ≤ tally p (map f xs))
    → is_double (phase r h) ≡ true
    → 2 ≤ tally p (tell_all f r)
unfolding phase
tally-tell_all p f r h each e =
    rw
      (
        tally-append p,
        tally-append p (map f r.recv),
        tally-append p (map f r.ready),
        tally-append p (map f r.undo_send),
      )
      (ground (arith, each r.send, each r.recv, each r.ready, each r.undo_send, each r.undo_recv))

-- The destructor calls `destroyed` at least twice for an automaton manager that is withdrawn,
-- closing or undoing: whose destruction was asked for and not yet answered.
pub destruct-destroyed_twice :
    (a : Automaton) (h : ℕ)
    → is_double (phase a.creates h) ≡ true
    → 2 ≤ tally (is_destroyed_call h) (destruct a)
unfolding destruct
destruct-destroyed_twice a h e =
    let two =
      tally-tell_all (is_destroyed_call h) helper_destroyed a.creates h (tally-map_destroyed h) e in
    rw (tally-append (is_destroyed_call h)) (omega arith)

-- The destructor calls `unbound` at least twice for a binding manager that is withdrawn, closing or
-- undoing: whose unbinding was asked for and not yet answered.
pub destruct-unbound_twice :
    (a : Automaton) (h : ℕ)
    → is_double (phase a.binds h) ≡ true
    → 2 ≤ tally (is_unbound_call h) (destruct a)
unfolding destruct
destruct-unbound_twice a h e =
    let two = tally-tell_all (is_unbound_call h) helper_unbound a.binds h (tally-map_unbound h) e in
    rw (tally-append (is_unbound_call h)) (omega arith)
