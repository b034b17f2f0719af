-- ===== src/UdpSender/Steps.antt =====
-- All that can happen to a sender of datagrams (lib/udp_sender_automaton.cpp).
use ioa.Prelude.{ℕ, Bool, List, [], ◌∷◌, Option, if◌then◌else◌}
use ioa.Outcome.{Outcome, done, ◌>>=◌}
use ioa.UdpSender.{
  UdpSender, SendArg, schedule, send_effect, send_complete_precondition, send_complete_effect,
  error_precondition, error_effect, schedule_write_ready_precondition, schedule_write_ready_effect,
  write_ready_precondition, write_ready_effect, RecentOp, observe,
}

-- What happens: an input, an output for an automaton or an internal action, tried by the scheduler
-- and run if its precondition holds, or a change of the bindings. An output comes with the number of
-- its bindings, and write_ready with the answer of ::sendto.
pub data Happening : Type 0 where
  sends : SendArg → (aid : ℕ) → Happening
  completes : (bindings aid : ℕ) → Happening
  reports : (bindings : ℕ) → Happening
  schedules_write : Happening
  writes : Option ℕ → Happening
  rebinds : RecentOp → (aid : ℕ) → Happening

abbrev pub run_if : Bool → (error_bindings : ℕ) → UdpSender → UdpSender → UdpSender
run_if b n s s' = if b then schedule n s' else s

-- `error_bindings` are those that `schedule` sees.
unfoldable pub happen : (error_bindings : ℕ) → Happening → UdpSender → Outcome UdpSender
unfolding send_effect send_complete_precondition send_complete_effect error_precondition
    error_effect schedule_write_ready_precondition schedule_write_ready_effect
    write_ready_precondition write_ready_effect observe schedule
happen n (sends arg aid) s = done (schedule n (send_effect arg aid s))
happen n (completes bindings aid) s =
    done (run_if (send_complete_precondition bindings aid s) n s (send_complete_effect aid s))
happen n (reports bindings) s = done (run_if (error_precondition bindings s) n s (error_effect s).1)
happen n schedules_write s =
    done (run_if (schedule_write_ready_precondition s) n s (schedule_write_ready_effect s))
happen n (writes answer) s =
    done (run_if (write_ready_precondition s) n s (write_ready_effect answer s))
happen n (rebinds op aid) s = observe op aid s

unfoldable pub happen_all : List (ℕ × Happening) → UdpSender → Outcome UdpSender
unfolding happen
happen_all [] s = done s
happen_all ((n, h) ∷ hs) s = do s1 ← happen n h s; happen_all hs s1
