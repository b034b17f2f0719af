-- ===== src/TcpConnection/Stream.antt =====
-- The bytes that a connection (lib/tcp_connection_automaton.cpp) takes, writes, reads and hands on.
use ioa.Prelude.{
  ℕ, ◌+◌, ◌≤◌, ◌≡◌, refl, Bool, true, false, ◌&&◌, List, [], ◌∷◌, ◌++◌, arith, Option, none, some,
  ◌==◌, length, is_some, Bool-cases, inl, inr, sym, ap, ◌∙◌,
}
use ioa.Scheduler.Queue.{append_assoc}
use ioa.TcpConnection.{
  TcpConnection, write_ready_wait, read_ready_wait, Member, schedule_write, send_complete,
  schedule_read, receive, connected, error, Call, write_when_ready, read_when_ready, ask_if, on_fd,
  Answer, failed, ok, construct, is_send_wait, is_read_wait, schedule_all, send_effect,
  schedule_write_precondition, schedule_write_effect, write_ready_precondition, write_ready_effect,
  send_complete_precondition, send_complete_effect, schedule_read_precondition,
  schedule_read_effect, read_ready_precondition, read_ready_effect, receive_precondition,
  receive_effect, init_effect, connected_precondition, connected_effect, error_precondition,
  error_effect,
}
use ioa.TcpConnection.Bytes.{
  unsent_in, unreceived_in, Sending, Receiving, send-Sending, scheduled-Sending, wrote-Sending,
  completed-Sending, scheduled-Receiving, read-Receiving, delivered-Receiving,
}

abbrev pub unsent : TcpConnection → List ℕ
unsent s = unsent_in s.send_state s.send_buffer s.bytes_written

abbrev pub unreceived : TcpConnection → List ℕ
unreceived s = unreceived_in s.receive_state s.receive_buffer

-- `write` takes no more than it is handed.
abbrev pub Fits : Answer ℕ → TcpConnection → Type 0
Fits (failed errno) s = Unit
Fits (ok n) s = s.bytes_written + n ≤ length s.send_buffer

-- Every connection that the actions lead to, each internal action and output under its precondition.
pub data Reaches : TcpConnection → Type 0 where
  constructed : Reaches construct
  sends : {s : TcpConnection} (buf : List ℕ) → Reaches s → Reaches (send_effect buf s)
  schedules_write :
      {s : TcpConnection}
      → Reaches s
      → schedule_write_precondition s ≡ true
      → Reaches (schedule_write_effect s)
  writes :
      {s : TcpConnection} (answer : Answer ℕ)
      → Reaches s
      → write_ready_precondition s ≡ true
      → Fits answer s
      → Reaches (write_ready_effect answer s)
  completes :
      {s : TcpConnection} (bindings : ℕ)
      → Reaches s
      → send_complete_precondition bindings s ≡ true
      → Reaches (send_complete_effect s)
  schedules_read :
      {s : TcpConnection}
      → Reaches s
      → schedule_read_precondition s ≡ true
      → Reaches (schedule_read_effect s)
  reads :
      {s : TcpConnection} (size : Answer ℕ) (answer : Answer (List ℕ))
      → Reaches s
      → read_ready_precondition s ≡ true
      → Reaches (read_ready_effect size answer s)
  receives :
      {s : TcpConnection} (bindings : ℕ)
      → Reaches s
      → receive_precondition bindings s ≡ true
      → Reaches (receive_effect s).1
  inits :
      {s : TcpConnection} (fd : ℕ) (option : Option ℕ)
      → Reaches s
      → Reaches (init_effect fd option s)
  connects :
      {s : TcpConnection} (bindings : ℕ)
      → Reaches s
      → connected_precondition bindings s ≡ true
      → Reaches (connected_effect s)
  reports :
      {s : TcpConnection} (bindings : ℕ)
      → Reaches s
      → error_precondition bindings s ≡ true
      → Reaches (error_effect s).1
  schedules : {s : TcpConnection} (count : Member → ℕ) → Reaches s → Reaches (schedule_all count s)

pub record InOrder (s : TcpConnection) : Type 0 where
  pub sending : Sending s.send_state s.send_buffer s.bytes_written s.written s.accepted
  pub receiving : Receiving s.receive_state s.receive_buffer s.read s.delivered

on_fd-InOrder :
    (call : ℕ → Call) (fd : Option ℕ) (s : TcpConnection) → InOrder s → InOrder (on_fd call fd s)
on_fd-InOrder call none s v = v
on_fd-InOrder call (some fd) s v = record { sending = v.sending; receiving = v.receiving }

ask_if-InOrder :
    (b : Bool) (member : Member) (s : TcpConnection) → InOrder s → InOrder (ask_if b member s)
ask_if-InOrder true member s v = record { sending = v.sending; receiving = v.receiving }
ask_if-InOrder false member s v = v

read_ready-InOrder :
    (s : TcpConnection) (size : Answer ℕ) (answer : Answer (List ℕ))
    → is_read_wait s.receive_state ≡ true
    → InOrder s
    → InOrder (read_ready_effect size answer s)
unfolding read_ready_effect
read_ready-InOrder s (failed errno) answer h v = record {
  sending = v.sending;
  receiving = v.receiving;
}
read_ready-InOrder s (ok n) (failed errno) h v = record {
  sending = v.sending;
  receiving = v.receiving;
}
read_ready-InOrder s (ok n) (ok []) h v = record { sending = v.sending; receiving = v.receiving }
read_ready-InOrder s (ok n) (ok (b ∷ bs)) h v = record {
  sending = v.sending;
  receiving = read-Receiving s.receive_state _ (b ∷ bs) s.read s.delivered h v.receiving;
}

send-InOrder : (buf : List ℕ) (s : TcpConnection) → InOrder s → InOrder (send_effect buf s)
unfolding send_effect
send-InOrder buf s v = elim (Bool-cases (s.errno == 0 && is_send_wait s.send_state)) [
  | inr e ↦ rw e v
  | inl e ↦ rw e (record {
    sending =
        send-Sending s.send_state s.send_buffer buf s.bytes_written s.written s.accepted
          (ground arith) v.sending;
    receiving = v.receiving;
  })
]

init-InOrder :
    (fd : ℕ) (option : Option ℕ) (s : TcpConnection) → InOrder s → InOrder (init_effect fd option s)
unfolding init_effect
init-InOrder fd none s v = elim (Bool-cases (is_some s.fd)) [
  | inl e ↦ rw e v
  | inr e ↦ rw e (record { sending = v.sending; receiving = v.receiving })
]
init-InOrder fd (some errno) s v = elim (Bool-cases (is_some s.fd)) [
  | inl e ↦ rw e v
  | inr e ↦ rw e (record { sending = v.sending; receiving = v.receiving })
]

schedule_all-InOrder :
    (count : Member → ℕ) (s : TcpConnection) → InOrder s → InOrder (schedule_all count s)
unfolding schedule_all
schedule_all-InOrder count s v =
    let p1 = schedule_write_precondition s in
    let p2 = send_complete_precondition (count send_complete) s in
    let p3 = schedule_read_precondition s in
    let p4 = receive_precondition (count receive) s in
    let p5 = connected_precondition (count connected) s in
    let p6 = error_precondition (count error) s in
    let s1 = ask_if p1 schedule_write s in
    let s2 = ask_if p2 send_complete s1 in
    let s3 = ask_if p3 schedule_read s2 in
    let s4 = ask_if p4 receive s3 in
    let s5 = ask_if p5 connected s4 in
    ask_if-InOrder p6 error s5 (
      ask_if-InOrder p5 connected s4 (
        ask_if-InOrder p4 receive s3 (
          ask_if-InOrder p3 schedule_read s2
            (ask_if-InOrder p2 send_complete s1 (ask_if-InOrder p1 schedule_write s v)))))

-- In every connection that the actions lead to, the bytes that the socket has taken and the rest of
-- the buffer are those that the accepted sends brought, in order, and those handed on and the last
-- read are those that the socket gave.
pub Reaches-InOrder : {s : TcpConnection} → Reaches s → InOrder s
unfolding construct schedule_write_precondition schedule_write_effect write_ready_precondition
    write_ready_effect send_complete_precondition send_complete_effect schedule_read_precondition
    schedule_read_effect read_ready_precondition receive_precondition receive_effect
    connected_effect error_effect schedule_all
Reaches-InOrder constructed = record { sending = (refl, omega arith); receiving = refl }
Reaches-InOrder (sends {s} buf r) = send-InOrder buf s (Reaches-InOrder r)
Reaches-InOrder (schedules_write {s} r h) =
    let v = Reaches-InOrder r in
    on_fd-InOrder write_when_ready s.fd (record s { send_state = write_ready_wait })
      (record {
        sending =
            scheduled-Sending s.send_state s.send_buffer s.bytes_written _ _ (ground arith)
              v.sending;
        receiving = v.receiving;
      })
Reaches-InOrder (writes {s} (failed errno) r h fits) =
    let v = Reaches-InOrder r in record { sending = v.sending; receiving = v.receiving }
Reaches-InOrder (writes {s} (ok n) r h fits) =
    let v = Reaches-InOrder r in
    record {
      sending =
          wrote-Sending s.send_state s.send_buffer s.bytes_written n _ _ (ground arith) fits
            v.sending;
      receiving = v.receiving;
    }
Reaches-InOrder (completes {s} bindings r h) =
    let v = Reaches-InOrder r in
    record {
      sending =
          completed-Sending s.send_state s.send_buffer s.bytes_written _ _ (ground arith) v.sending;
      receiving = v.receiving;
    }
Reaches-InOrder (schedules_read {s} r h) =
    let v = Reaches-InOrder r in
    on_fd-InOrder read_when_ready s.fd (record s { receive_state = read_ready_wait })
      (record {
        sending = v.sending;
        receiving =
            scheduled-Receiving s.receive_state s.receive_buffer _ _ (ground arith) v.receiving;
      })
Reaches-InOrder (reads {s} size answer r h) =
    read_ready-InOrder s size answer (ground arith) (Reaches-InOrder r)
Reaches-InOrder (receives {s} bindings r h) =
    let v = Reaches-InOrder r in
    record {
      sending = v.sending;
      receiving =
          delivered-Receiving s.receive_state s.receive_buffer _ _ (ground arith) v.receiving;
    }
Reaches-InOrder (inits {s} fd option r) = init-InOrder fd option s (Reaches-InOrder r)
Reaches-InOrder (connects {s} bindings r h) =
    let v = Reaches-InOrder r in record { sending = v.sending; receiving = v.receiving }
Reaches-InOrder (reports {s} bindings r h) =
    let v = Reaches-InOrder r in record { sending = v.sending; receiving = v.receiving }
Reaches-InOrder (schedules {s} count r) = schedule_all-InOrder count s (Reaches-InOrder r)

-- Two connections over one socket: where the bytes that one end has read are the first of those that
-- the other end has written, the others being under way, nothing is lost, repeated or out of order.
-- What the one end has handed on, what it has read, what is under way, and the rest of the other end's
-- buffer are together what that end's accepted sends brought.
pub delivered-accepted :
    {a b : TcpConnection} (under_way : List ℕ)
    → Reaches a
    → Reaches b
    → a.written ≡ b.read ++ under_way
    → b.delivered ++ (unreceived b ++ (under_way ++ unsent a)) ≡ a.accepted
delivered-accepted {a} {b} under_way r q h =
    let v = Reaches-InOrder r in
    let w = Reaches-InOrder q in
    sym (append_assoc b.delivered (unreceived b) (under_way ++ unsent a))
    ∙ ap (λ z. z ++ (under_way ++ unsent a)) w.receiving
    ∙ sym (append_assoc b.read under_way (unsent a))
    ∙ ap (λ z. z ++ unsent a) (sym h)
    ∙ v.sending.0
