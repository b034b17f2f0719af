-- ===== src/Samples/Helpers.antt =====
-- The theorems on the helpers of an automaton, at an automaton with a request sent and withdrawn.
use ioa.Prelude.{ℕ, ◌≤◌, ◌≢◌, refl, false, arith}
use ioa.Outcome.{Outcome, fault, done}
use ioa.Requests.{
  Requests, none_yet, add, withdraw, failed, succeeded, finished, send_first, undo_first, can_send,
  can_undo,
}
use ioa.Requests.Phases.{
  phase, IsValid, Agrees, Takes, state_of, on_add, on_withdraw, on_failed, on_succeeded,
  on_finished, on_send, on_undo, add-Agrees, withdraw-Agrees, failed-Agrees, succeeded-Agrees,
  finished-Agrees, send_first-Takes, undo_first-Takes,
}
use ioa.Requests.Valid.{
  none_yet-IsValid, add-IsValid, send_first-IsValid, withdraw-IsValid, succeeded-IsValid,
}
use ioa.Automaton.{
  Automaton, init, destruct, create, bind, destroy, unbind, sys_create_effect, sys_bind_effect,
}
use ioa.Automaton.Protocol.{
  Reaches, here, next, creates, sends_create, destroys, binds, sends_bind, unbinds, IsConsistent,
  init-IsConsistent, tally, is_destroyed_call, is_unbound_call, destruct-destroyed_twice,
  destruct-unbound_twice, step,
}

abbrev of_outcome : Outcome Requests → Requests
of_outcome fault = none_yet
of_outcome (done r) = r

abbrev of_sent : Outcome (ℕ × Requests) → Requests
of_sent fault = none_yet
of_sent (done (h, r)) = r

-- Helper 5 is to be sent, waits, and is withdrawn; after the success it is closing.
abbrev sending : Requests
sending = of_outcome (add none_yet 5)

abbrev waiting : Requests
waiting = of_sent (send_first sending)

abbrev withdrawn : Requests
withdrawn = of_outcome (state_of (withdraw waiting 5))

abbrev closing : Requests
closing = of_outcome (succeeded withdrawn 5)

sending-IsValid : IsValid sending
unfolding none_yet add
sending-IsValid = add-IsValid none_yet sending 5 none_yet-IsValid refl

waiting-IsValid : IsValid waiting
unfolding none_yet add send_first
waiting-IsValid = send_first-IsValid sending waiting 5 sending-IsValid refl

withdrawn-IsValid : IsValid withdrawn
unfolding none_yet add send_first withdraw
withdrawn-IsValid = withdraw-IsValid waiting withdrawn 5 waiting-IsValid false refl

closing-IsValid : IsValid closing
unfolding none_yet add send_first withdraw succeeded
closing-IsValid = succeeded-IsValid withdrawn closing 5 withdrawn-IsValid refl

six : ◌≢◌ {A = ℕ} 6 0
six e = absurd (omega arith)

five : ◌≢◌ {A = ℕ} 5 0
five e = absurd (omega arith)

add-Agrees_example : Agrees waiting 6 6 (on_add (phase waiting 6)) (add waiting 6)
add-Agrees_example = add-Agrees waiting 6 6 six waiting-IsValid

withdraw-Agrees_example :
    Agrees waiting 5 5 (on_withdraw (phase waiting 5)) (state_of (withdraw waiting 5))
withdraw-Agrees_example = withdraw-Agrees waiting 5 5 five waiting-IsValid

failed-Agrees_example : Agrees withdrawn 5 5 (on_failed (phase withdrawn 5)) (failed withdrawn 5)
failed-Agrees_example = failed-Agrees withdrawn 5 5 withdrawn-IsValid

succeeded-Agrees_example :
    Agrees withdrawn 5 5 (on_succeeded (phase withdrawn 5)) (succeeded withdrawn 5)
succeeded-Agrees_example = succeeded-Agrees withdrawn 5 5 withdrawn-IsValid

finished-Agrees_example : Agrees closing 5 5 (on_finished (phase closing 5)) (finished closing 5)
finished-Agrees_example = finished-Agrees closing 5 5 closing-IsValid

send_first-Takes_example : Takes sending 5 (can_send sending) on_send (send_first sending)
send_first-Takes_example = send_first-Takes sending 5 sending-IsValid

undo_first-Takes_example : Takes closing 5 (can_undo closing) on_undo (undo_first closing)
undo_first-Takes_example = undo_first-Takes closing 5 closing-IsValid

-- An automaton that asked for the creation of 5 and for a binding by 8, and withdrew both.
abbrev leaving : Automaton
leaving = record {
  creates = withdrawn;
  binds = of_outcome (state_of (withdraw (of_sent (send_first (of_outcome (add none_yet 8)))) 8));
}

leaving_reached : Reaches init leaving
unfolding none_yet add send_first withdraw init step create bind destroy unbind sys_create_effect
    sys_bind_effect
leaving_reached =
    next (unbinds 8) _
      (next sends_bind _
        (next (binds 8) _
          (next (destroys 5) _ (next sends_create _ (next (creates 5) _ here refl) refl) refl) refl)
        refl)
      refl

init-IsConsistent_example : IsConsistent leaving
init-IsConsistent_example = init-IsConsistent leaving_reached

destruct-destroyed_twice_example : 2 ≤ tally (is_destroyed_call 5) (destruct leaving)
unfolding none_yet add send_first withdraw phase
destruct-destroyed_twice_example = destruct-destroyed_twice leaving 5 refl

destruct-unbound_twice_example : 2 ≤ tally (is_unbound_call 8) (destruct leaving)
unfolding none_yet add send_first withdraw phase
destruct-unbound_twice_example = destruct-unbound_twice leaving 8 refl
