-- ===== src/Requests/Valid.antt =====
-- The phases of the helpers after each operation on the sets of lib/automaton.cpp.
use ioa.Prelude.{ℕ, ◌≡◌, ◌≢◌, Bool, Option, some, arith, ap}
use ioa.Outcome.{Outcome, fault, done}
use ioa.Requests.{
  Requests, none_yet, add, withdraw, can_send, send_first, can_undo, undo_first, failed, succeeded,
  finished,
}
use ioa.Requests.Phases.{
  Phase, absent, broken, phase, IsValid, Agrees, Takes, Agrees-IsValid, on_add, on_withdraw,
  on_failed, on_succeeded, on_finished, on_send, on_undo, state_of, add-Agrees, withdraw-Agrees,
  failed-Agrees, succeeded-Agrees, finished-Agrees, send_first-Takes, undo_first-Takes,
  none_yet-phase,
}

Agrees-done :
    (r s : Requests) (h : ℕ) (p : Option Phase) (o : Outcome Requests)
    → IsValid r
    → p ≢ some broken
    → o ≡ done s
    → ((j : ℕ) → Agrees r h j p o)
    → IsValid s
Agrees-done r s h p fault v ne e a = absurd (cc e)
Agrees-done r s h p (done t) v ne e a =
    let same : t ≡ s = ground arith in rw same at (Agrees-IsValid r t h p v ne a)

Takes-done :
    (r s : Requests) (h : ℕ) (can : Bool) (on : Phase → Option Phase) (o : Outcome (ℕ × Requests))
    → IsValid r
    → ((p : Phase) → on p ≢ some broken)
    → o ≡ done (h, s)
    → ((j : ℕ) → Takes r j can on o)
    → IsValid s
Takes-done r s h can on fault v ne e t = absurd (cc e)
Takes-done r s h can on (done (i, u)) v ne e t =
    let same : u ≡ s = ground arith in
    rw same at (Agrees-IsValid r u i (on (phase r i)) v (ne (phase r i)) (λ j. (t j).1))

on_add-ne : (p : Phase) → on_add p ≢ some broken
on_add-ne absent e = ground arith
on_add-ne _ e = ground arith

on_withdraw-ne : (p : Phase) → on_withdraw p ≢ some broken
on_withdraw-ne absent e = ground arith
on_withdraw-ne _ e = ground arith

on_failed-ne : (p : Phase) → on_failed p ≢ some broken
on_failed-ne absent e = ground arith
on_failed-ne _ e = ground arith

on_succeeded-ne : (p : Phase) → on_succeeded p ≢ some broken
on_succeeded-ne absent e = ground arith
on_succeeded-ne _ e = ground arith

on_finished-ne : (p : Phase) → on_finished p ≢ some broken
on_finished-ne absent e = ground arith
on_finished-ne _ e = ground arith

on_send-ne : (p : Phase) → on_send p ≢ some broken
on_send-ne absent e = ground arith
on_send-ne _ e = ground arith

on_undo-ne : (p : Phase) → on_undo p ≢ some broken
on_undo-ne absent e = ground arith
on_undo-ne _ e = ground arith

add-ne_zero : (r s : Requests) (h : ℕ) → add r h ≡ done s → h ≢ 0
unfolding add
add-ne_zero r s h e = ground arith

withdraw-ne_zero : (r s : Requests) (h : ℕ) (told : Bool) → withdraw r h ≡ done (s, told) → h ≢ 0
unfolding withdraw
withdraw-ne_zero r s h told e = ground arith

module _ (r s : Requests) (h : ℕ) (v : IsValid r) where
  pub add-IsValid : add r h ≡ done s → IsValid s
  add-IsValid e =
      Agrees-done r s h (on_add (phase r h)) (add r h) v (on_add-ne (phase r h)) e
        (λ j. add-Agrees r h j (add-ne_zero r s h e) v)

  pub withdraw-IsValid : (told : Bool) → withdraw r h ≡ done (s, told) → IsValid s
  withdraw-IsValid told e =
      Agrees-done r s h (on_withdraw (phase r h)) (state_of (withdraw r h)) v
        (on_withdraw-ne (phase r h)) (ap state_of e)
        (λ j. withdraw-Agrees r h j (withdraw-ne_zero r s h told e) v)

  pub failed-IsValid : failed r h ≡ done s → IsValid s
  failed-IsValid e =
      Agrees-done r s h (on_failed (phase r h)) (failed r h) v (on_failed-ne (phase r h)) e
        (λ j. failed-Agrees r h j v)

  pub succeeded-IsValid : succeeded r h ≡ done s → IsValid s
  succeeded-IsValid e =
      Agrees-done r s h (on_succeeded (phase r h)) (succeeded r h) v (on_succeeded-ne (phase r h)) e
        (λ j. succeeded-Agrees r h j v)

  pub finished-IsValid : finished r h ≡ done s → IsValid s
  finished-IsValid e =
      Agrees-done r s h (on_finished (phase r h)) (finished r h) v (on_finished-ne (phase r h)) e
        (λ j. finished-Agrees r h j v)

  pub send_first-IsValid : send_first r ≡ done (h, s) → IsValid s
  send_first-IsValid e =
      Takes-done r s h (can_send r) on_send (send_first r) v on_send-ne e
        (λ j. send_first-Takes r j v)

  pub undo_first-IsValid : undo_first r ≡ done (h, s) → IsValid s
  undo_first-IsValid e =
      Takes-done r s h (can_undo r) on_undo (undo_first r) v on_undo-ne e
        (λ j. undo_first-Takes r j v)

pub none_yet-IsValid : IsValid none_yet
none_yet-IsValid h e = let a = none_yet-phase h in ground arith
