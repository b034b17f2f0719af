-- ===== src/UdpSender.antt =====
-- lib/udp_sender_automaton.cpp: an automaton that sends datagrams for others, one at a time for each.
-- What the system calls answer is an argument.
pub mod Steps
pub mod Queue
use ioa.Prelude.{
  ℕ, Bool, true, false, ◌&&◌, not, List, [], ◌∷◌, ◌++◌, Option, none, some, ◌==◌, if◌then◌else◌,
  length,
}
use ioa.FinSet.{contains, insert, erase}
use ioa.Outcome.{Outcome, fault, done, ◌>>=◌}

-- `errno` is that of the address, and 0 for a good one.
pub record SendArg : Type 0 where
  pub errno : ℕ
  pub address : ℕ
  pub buffer : List ℕ

pub data State : Type 0 where
  schedule_write_ready write_ready_wait : State

-- What the automaton asks of its scheduler, and a close of the descriptor.
pub data Call : Type 0 where
  schedule_write error : Call
  send_complete : (aid : ℕ) → Call
  write_when_ready close : (fd : ℕ) → Call

pub record UdpSender : Type 0 where
  pub send_queue : List (ℕ × SendArg)
  pub send_set : List ℕ
  pub complete_set : List ℕ
  pub state : State
  pub fd : Option ℕ
  pub errno : ℕ
  pub error_reported : Bool
  pub calls : List Call

-- The answers of the calls that open the socket: its descriptor, and the errno of those that fail.
pub record Opening : Type 0 where
  pub socket : Option ℕ
  pub socket_errno : ℕ
  pub get_flags : Option ℕ
  pub set_flags : Option ℕ
  pub set_broadcast : Option ℕ
  pub set_buffer : Option ℕ

abbrev first_error : List (Option ℕ) → ℕ
first_error [] = 0
first_error (none ∷ es) = first_error es
first_error (some errno ∷ es) = errno

abbrev made : Option ℕ → ℕ → UdpSender
made fd errno = record {
  send_queue = [];
  send_set = [];
  complete_set = [];
  state = schedule_write_ready;
  fd = fd;
  errno = errno;
  error_reported = false;
  calls = [];
}

-- The calls after the socket's, up to the first that fails.
abbrev later : ℕ → Opening → List (Option ℕ)
later size o =
    o.get_flags ∷ o.set_flags ∷ o.set_broadcast ∷ (if size == 0 then [] else o.set_buffer ∷ [])

abbrev pub opened : ℕ → Opening → Option ℕ → UdpSender
opened size o none = made none o.socket_errno
opened size o (some fd) = made (some fd) (first_error (later size o))

unfoldable pub construct : (send_buf_size : ℕ) → Opening → UdpSender
construct size o = opened size o o.socket

abbrev pub ask : Call → UdpSender → UdpSender
ask c s = record s { calls = s.calls ++ c ∷ [] }

abbrev pub on_fd : (ℕ → Call) → Option ℕ → UdpSender → UdpSender
on_fd call none s = s
on_fd call (some fd) s = ask (call fd) s

unfoldable pub destruct : UdpSender → UdpSender
destruct s = on_fd close s.fd s

abbrev pub is_schedule : State → Bool
is_schedule schedule_write_ready = true
is_schedule write_ready_wait = false

abbrev pub is_empty : List (ℕ × SendArg) → Bool
is_empty [] = true
is_empty (x ∷ q) = false

unfoldable pub schedule_write_ready_precondition : UdpSender → Bool
schedule_write_ready_precondition s =
    s.errno == 0 && is_schedule s.state && not (is_empty s.send_queue)

unfoldable pub error_precondition : ℕ → UdpSender → Bool
error_precondition bindings s = not (s.errno == 0) && not s.error_reported && not (bindings == 0)

unfoldable pub write_ready_precondition : UdpSender → Bool
write_ready_precondition s = s.errno == 0 && not (is_schedule s.state)

unfoldable pub send_complete_precondition : ℕ → ℕ → UdpSender → Bool
unfolding contains
send_complete_precondition bindings aid s = contains aid s.complete_set && not (bindings == 0)

abbrev pub ask_if : Bool → Call → UdpSender → UdpSender
ask_if b c s = if b then ask c s else s

unfoldable pub schedule : ℕ → UdpSender → UdpSender
unfolding schedule_write_ready_precondition error_precondition
schedule bindings s =
    ask_if (error_precondition bindings s) error
      (ask_if (schedule_write_ready_precondition s) schedule_write s)

unfoldable pub add_to_complete_set : ℕ → UdpSender → UdpSender
unfolding insert
add_to_complete_set aid s =
    ask (send_complete aid) (record s { complete_set = insert aid s.complete_set })

abbrev pub may_send : ℕ → UdpSender → Bool
may_send aid s = s.errno == 0 && not (contains aid s.send_set) && not (contains aid s.complete_set)

unfoldable pub send_effect : SendArg → ℕ → UdpSender → UdpSender
unfolding contains insert add_to_complete_set
send_effect arg aid s =
    if may_send aid s
    then if arg.errno == 0
      then record s {
        send_queue = s.send_queue ++ (aid, arg) ∷ [];
        send_set = insert aid s.send_set;
      }
      else add_to_complete_set aid s
    else s

unfoldable pub send_complete_effect : ℕ → UdpSender → UdpSender
unfolding erase
send_complete_effect aid s = record s { complete_set = erase aid s.complete_set }

unfoldable pub error_effect : UdpSender → ℕ × UdpSender
error_effect s = (s.errno, record s { error_reported = true })

unfoldable pub schedule_write_ready_effect : UdpSender → UdpSender
schedule_write_ready_effect s = record (on_fd write_when_ready s.fd s) { state = write_ready_wait }

-- What ::sendto comes to: none, or the errno.
abbrev pub sent : Option ℕ → ℕ → UdpSender → UdpSender
sent none aid s = add_to_complete_set aid s
sent (some errno) aid s = record s { errno = errno }

abbrev pub write_front : Option ℕ → List (ℕ × SendArg) → UdpSender → UdpSender
write_front answer [] s = s
write_front answer ((aid, arg) ∷ q) s =
    sent answer aid (record s { send_queue = q; send_set = erase aid s.send_set })

unfoldable pub write_ready_effect : Option ℕ → UdpSender → UdpSender
unfolding erase add_to_complete_set
write_ready_effect answer s =
    write_front answer s.send_queue (record s { state = schedule_write_ready })

abbrev pub cons_to : ℕ × SendArg → Option (List (ℕ × SendArg)) → Option (List (ℕ × SendArg))
cons_to e none = none
cons_to e (some q) = some (e ∷ q)

-- std::find_if with first_aid_equal, and the erasure; none where the search ends at the end.
unfoldable pub remove_first : ℕ → List (ℕ × SendArg) → Option (List (ℕ × SendArg))
remove_first aid [] = none
remove_first aid ((a, arg) ∷ q) =
    let rest = remove_first aid q in if aid == a then some q else cons_to (a, arg) rest

-- The assertion that the automaton has been found.
abbrev pub removed : ℕ → Option (List (ℕ × SendArg)) → UdpSender → Outcome UdpSender
removed aid none s = fault
removed aid (some q) s = done (record s { send_queue = q; send_set = erase aid s.send_set })

abbrev pub forget : ℕ → UdpSender → UdpSender
forget aid s = record s { complete_set = erase aid s.complete_set }

unfoldable pub purge : ℕ → UdpSender → Outcome UdpSender
unfolding contains erase remove_first
purge aid s = do
  s1 ← if contains aid s.send_set then removed aid (remove_first aid s.send_queue) s else done s
  done (forget aid s1)

pub data RecentOp : Type 0 where
  noop bound unbound : RecentOp

-- What `send` or `send_complete` tells of: its recent_op and its recent_parameter.
unfoldable pub observe : RecentOp → ℕ → UdpSender → Outcome UdpSender
unfolding purge
observe noop aid s = done s
observe bound aid s = done s
observe unbound aid s = purge aid s
