-- ===== src/TcpConnection.antt =====
-- lib/tcp_connection_automaton.cpp: an automaton that sends buffers over a socket and receives what
-- comes. Bytes are numbers; what the system calls answer is an argument.
pub mod Bytes
pub mod Stream
use ioa.Prelude.{
  ℕ, ◌+◌, ◌-◌, Bool, true, false, ◌&&◌, not, List, [], ◌∷◌, ◌++◌, Option, none, some, ◌==◌, ltb,
  if◌then◌else◌, length, is_some,
}

pub data SendState : Type 0 where
  send_wait schedule_write_ready write_ready_wait send_complete_ready : SendState

pub data ReceiveState : Type 0 where
  schedule_read_ready read_ready_wait receive_ready : ReceiveState

-- What the automaton asks of its scheduler: a member to be scheduled, at once or when the descriptor
-- is ready, or a close.
pub data Member : Type 0 where
  schedule_write send_complete schedule_read receive connected error : Member

pub data Call : Type 0 where
  schedule : Member → Call
  write_when_ready read_when_ready close : (fd : ℕ) → Call

-- The fields; m_fd is none for -1. The constructor leaves m_bytes_written as it is, here 0, and a send
-- sets it. Beside them stand the bytes that the socket has taken and given, and the buffers that came
-- by send and went by receive.
pub record TcpConnection : Type 0 where
  pub fd : Option ℕ
  pub errno : ℕ
  pub connected_reported : Bool
  pub error_reported : Bool
  pub send_state : SendState
  pub send_buffer : List ℕ
  pub bytes_written : ℕ
  pub receive_state : ReceiveState
  pub receive_buffer : List ℕ
  pub buffer_size : ℕ
  pub calls : List Call
  pub written : List ℕ
  pub read : List ℕ
  pub accepted : List ℕ
  pub delivered : List ℕ

unfoldable pub construct : TcpConnection
construct = record {
  fd = none;
  errno = 0;
  connected_reported = false;
  error_reported = false;
  send_state = send_wait;
  send_buffer = [];
  bytes_written = 0;
  receive_state = schedule_read_ready;
  receive_buffer = [];
  buffer_size = 0;
  calls = [];
  written = [];
  read = [];
  accepted = [];
  delivered = [];
}

abbrev pub ask : Call → TcpConnection → TcpConnection
ask c s = record s { calls = s.calls ++ c ∷ [] }

abbrev on_fd : (ℕ → Call) → Option ℕ → TcpConnection → TcpConnection
on_fd call none s = s
on_fd call (some fd) s = ask (call fd) s

unfoldable pub destruct : TcpConnection → TcpConnection
destruct s = on_fd close s.fd s

abbrev is_send_wait : SendState → Bool
is_send_wait send_wait = true
is_send_wait _ = false

abbrev is_schedule_write : SendState → Bool
is_schedule_write schedule_write_ready = true
is_schedule_write _ = false

abbrev is_write_wait : SendState → Bool
is_write_wait write_ready_wait = true
is_write_wait _ = false

abbrev is_complete : SendState → Bool
is_complete send_complete_ready = true
is_complete _ = false

abbrev is_schedule_read : ReceiveState → Bool
is_schedule_read schedule_read_ready = true
is_schedule_read _ = false

abbrev is_read_wait : ReceiveState → Bool
is_read_wait read_ready_wait = true
is_read_wait _ = false

abbrev is_receive : ReceiveState → Bool
is_receive receive_ready = true
is_receive _ = false

-- `m_fd != -1 && m_errno == 0`
abbrev is_open : TcpConnection → Bool
is_open s = is_some s.fd && s.errno == 0

-- The preconditions; an output's takes the number of its bindings.
unfoldable pub schedule_write_precondition : TcpConnection → Bool
schedule_write_precondition s = is_open s && is_schedule_write s.send_state

unfoldable pub write_ready_precondition : TcpConnection → Bool
write_ready_precondition s = is_open s && is_write_wait s.send_state

unfoldable pub send_complete_precondition : ℕ → TcpConnection → Bool
send_complete_precondition bindings s = is_complete s.send_state && not (bindings == 0)

unfoldable pub schedule_read_precondition : TcpConnection → Bool
schedule_read_precondition s = is_open s && is_schedule_read s.receive_state

unfoldable pub read_ready_precondition : TcpConnection → Bool
read_ready_precondition s = is_open s && is_read_wait s.receive_state

unfoldable pub receive_precondition : ℕ → TcpConnection → Bool
receive_precondition bindings s = is_receive s.receive_state && not (bindings == 0)

unfoldable pub connected_precondition : ℕ → TcpConnection → Bool
connected_precondition bindings s = is_some s.fd && not s.connected_reported && not (bindings == 0)

unfoldable pub error_precondition : ℕ → TcpConnection → Bool
error_precondition bindings s = not (s.errno == 0) && not s.error_reported && not (bindings == 0)

abbrev ask_if : Bool → Member → TcpConnection → TcpConnection
ask_if b member s = if b then ask (schedule member) s else s

-- The bindings of an output, by its member.
unfoldable pub schedule_all : (Member → ℕ) → TcpConnection → TcpConnection
unfolding schedule_write_precondition send_complete_precondition schedule_read_precondition
    receive_precondition connected_precondition error_precondition
schedule_all count s =
    let s1 = ask_if (schedule_write_precondition s) schedule_write s in
    let s2 = ask_if (send_complete_precondition (count send_complete) s) send_complete s1 in
    let s3 = ask_if (schedule_read_precondition s) schedule_read s2 in
    let s4 = ask_if (receive_precondition (count receive) s) receive s3 in
    let s5 = ask_if (connected_precondition (count connected) s) connected s4 in
    ask_if (error_precondition (count error) s) error s5

unfoldable pub send_effect : List ℕ → TcpConnection → TcpConnection
send_effect buf s =
    if s.errno == 0 && is_send_wait s.send_state
    then record s {
      send_buffer = buf;
      bytes_written = 0;
      send_state = schedule_write_ready;
      accepted = s.accepted ++ buf;
    }
    else s

unfoldable pub schedule_write_effect : TcpConnection → TcpConnection
schedule_write_effect s = on_fd write_when_ready s.fd (record s { send_state = write_ready_wait })

-- What a system call answers: -1 with an errno, or a number or bytes.
pub data Answer {ℓ} (A : Type ℓ) : Type ℓ where
  failed : (errno : ℕ) → Answer A
  ok : A → Answer A

unfoldable pub take : ℕ → List ℕ → List ℕ
take n [] = []
take n (x ∷ xs) = let rest = take (n - 1) xs in if n == 0 then [] else x ∷ rest

unfoldable pub drop : ℕ → List ℕ → List ℕ
drop n [] = []
drop n (x ∷ xs) = let rest = drop (n - 1) xs in if n == 0 then x ∷ xs else rest

-- `write` is handed the buffer from m_bytes_written on, and answers how many bytes it has taken.
unfoldable pub write_ready_effect : Answer ℕ → TcpConnection → TcpConnection
unfolding take drop
write_ready_effect (failed errno) s = record s { errno = errno }
write_ready_effect (ok n) s =
    let total = s.bytes_written + n in
    record s {
      bytes_written = total;
      send_state =
          if total == length s.send_buffer then send_complete_ready else schedule_write_ready;
      written = s.written ++ take n (drop s.bytes_written s.send_buffer);
    }

unfoldable pub send_complete_effect : TcpConnection → TcpConnection
send_complete_effect s = record s { send_state = send_wait }

unfoldable pub schedule_read_effect : TcpConnection → TcpConnection
schedule_read_effect s = on_fd read_when_ready s.fd (record s { receive_state = read_ready_wait })

abbrev pub econnreset : ℕ
econnreset = 104

abbrev resize : ℕ → TcpConnection → TcpConnection
resize n s = record s { buffer_size = if ltb s.buffer_size n then n else s.buffer_size }

abbrev received : List ℕ → TcpConnection → TcpConnection
received [] s = record s { errno = econnreset }
received (b ∷ bs) s = record s {
  receive_buffer = b ∷ bs;
  receive_state = receive_ready;
  read = s.read ++ b ∷ bs;
}

abbrev take_read : Answer (List ℕ) → TcpConnection → TcpConnection
take_read (failed errno) s = record s { errno = errno }
take_read (ok bytes) s = received bytes s

-- The answers of ioctl and of read.
unfoldable pub read_ready_effect : Answer ℕ → Answer (List ℕ) → TcpConnection → TcpConnection
read_ready_effect (failed errno) answer s = record s { errno = errno }
read_ready_effect (ok num_bytes) answer s = take_read answer (resize num_bytes s)

unfoldable pub receive_effect : TcpConnection → List ℕ × TcpConnection
receive_effect s = (
  s.receive_buffer,
  record s { receive_state = schedule_read_ready; delivered = s.delivered ++ s.receive_buffer },
)

-- `option` is the errno of setsockopt where there is a SO_NOSIGPIPE and the call fails.
unfoldable pub init_effect : ℕ → Option ℕ → TcpConnection → TcpConnection
init_effect fd none s = if is_some s.fd then s else record s { fd = some fd }
init_effect fd (some errno) s = if is_some s.fd then s else record s { fd = some fd; errno = errno }

unfoldable pub connected_effect : TcpConnection → TcpConnection
connected_effect s = record s { connected_reported = true }

unfoldable pub error_effect : TcpConnection → ℕ × TcpConnection
error_effect s = (s.errno, record s { error_reported = true })
