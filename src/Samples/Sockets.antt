-- ===== src/Samples/Sockets.antt =====
-- The theorems on the automata with sockets, at small exchanges.
use ioa.Prelude.{◌≡◌, ◌++◌, refl, [], ◌∷◌, none, arith, some, ℕ, List}
use ioa.TcpConnection.{
  TcpConnection, ok, construct, init_effect, send_effect, schedule_write_effect, write_ready_effect,
  schedule_read_effect, read_ready_effect, schedule_write_precondition, write_ready_precondition,
  schedule_read_precondition, read_ready_precondition,
}
use ioa.TcpConnection.Stream.{
  Reaches, constructed, inits, sends, schedules_write, writes, schedules_read, reads, unsent,
  unreceived, delivered-accepted,
}
use ioa.Outcome.{done}
use ioa.UdpSender.{UdpSender, Opening, SendArg, unbound}
use ioa.UdpSender
use ioa.UdpSender.Steps.{Happening, schedules_write, rebinds, happen_all}
use ioa.UdpSender.Steps as UdpSteps
use ioa.UdpSender.Queue.{Held, happen_all-construct}

-- One end is given five bytes, of which the socket takes three.
abbrev sender : TcpConnection
sender = write_ready_effect (ok 3) (
    schedule_write_effect
      (send_effect (10 ∷ 11 ∷ 12 ∷ 13 ∷ 14 ∷ []) (init_effect 5 none construct)))

sender_reached : Reaches sender
unfolding construct init_effect send_effect schedule_write_precondition write_ready_precondition
    schedule_write_effect
sender_reached =
    writes (ok 3)
      (schedules_write (sends (10 ∷ 11 ∷ 12 ∷ 13 ∷ 14 ∷ []) (inits 5 none constructed)) refl) refl
      (omega arith)

-- The other end has read two of them.
abbrev receiver : TcpConnection
receiver =
    read_ready_effect (ok 2) (ok (10 ∷ 11 ∷ []))
      (schedule_read_effect (init_effect 6 none construct))

receiver_reached : Reaches receiver
unfolding construct init_effect schedule_read_precondition read_ready_precondition
    schedule_read_effect
receiver_reached =
    reads (ok 2) (ok (10 ∷ 11 ∷ [])) (schedules_read (inits 6 none constructed) refl) refl

one_under_way : sender.written ≡ receiver.read ++ 12 ∷ []
unfolding construct init_effect send_effect schedule_write_effect write_ready_effect
    schedule_read_effect read_ready_effect
one_under_way = refl

delivered-accepted_example :
    receiver.delivered ++ (unreceived receiver ++ ((12 ∷ []) ++ unsent sender)) ≡ sender.accepted
delivered-accepted_example =
    delivered-accepted (12 ∷ []) sender_reached receiver_reached one_under_way

abbrev opening : Opening
opening = record {
  socket = some 5;
  socket_errno = 0;
  get_flags = none;
  set_flags = none;
  set_broadcast = none;
  set_buffer = none;
}

abbrev datagram : SendArg
datagram = record { errno = 0; address = 77; buffer = 1 ∷ 2 ∷ [] }

-- Two automata send, the first is served and told, and the second unbinds before it is served.
abbrev happenings : List (ℕ × Happening)
happenings =
    (0, UdpSteps.sends datagram 8)
    ∷ (0, UdpSteps.sends datagram 9)
    ∷ (0, schedules_write)
    ∷ (0, UdpSteps.writes none)
    ∷ (0, UdpSteps.completes 1 8)
    ∷ (0, rebinds unbound 9)
    ∷ []

happen_all-construct_example :
    (s' : UdpSender) × (happen_all happenings (UdpSender.construct 0 opening) ≡ done s') × Held s'
happen_all-construct_example = happen_all-construct 0 opening happenings
