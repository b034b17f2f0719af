-- ===== src/Requests.antt =====
-- One half of the sets of lib/automaton.cpp: those for creating and destroying automata, or those
-- for binding and unbinding. The code keeps the two halves apart and treats them alike.
pub mod Phases
pub mod Valid
use ioa.Prelude.{
  ℕ, Bool, true, false, ◌&&◌, ◌||◌, not, List, [], ◌∷◌, Option, none, some, ◌==◌, if◌then◌else◌,
}
use ioa.FinSet.{contains, insert, erase}
use ioa.Outcome.{Outcome, fault, done}

-- For creation: m_create_send, m_create_recv, m_create_done, m_destroy_send, m_destroy_recv. For
-- binding: m_bind_send, m_bind_recv, m_bind_done, m_unbind_send, m_unbind_recv.
pub record Requests : Type 0 where
  pub send : List ℕ
  pub recv : List ℕ
  pub ready : List ℕ
  pub undo_send : List ℕ
  pub undo_recv : List ℕ

unfoldable pub none_yet : Requests
none_yet = record { send = []; recv = []; ready = []; undo_send = []; undo_recv = [] }

-- The assertion of `create` and of `bind`: the helper is in none of the sets.
abbrev unseen : Requests → ℕ → Bool
unseen r h =
    not (contains h r.send)
    && not (contains h r.recv)
    && not (contains h r.ready)
    && not (contains h r.undo_send)
    && not (contains h r.undo_recv)

unfoldable pub add : Requests → ℕ → Outcome Requests
unfolding contains insert
add r h =
    if h == 0
    then fault
    else if unseen r h
    then done (record r { send = insert h r.send })
    else fault

-- The first assertion of `destroy` and of `unbind`: the helper is in one of three sets.
abbrev is_single : Bool → Bool → Bool → Bool
is_single s r d = s && not r && not d || not s && r && not d || not s && not r && d

-- The new sets, and whether the helper is told at once.
unfoldable pub withdraw : Requests → ℕ → Outcome (Requests × Bool)
unfolding contains insert erase
withdraw r h =
    if h == 0
    then fault
    else if not (is_single (contains h r.send) (contains h r.recv) (contains h r.ready))
    then fault
    else if contains h r.undo_send || contains h r.undo_recv
    then fault
    else if contains h r.send
    then done (record r { send = erase h r.send }, true)
    else done (record r { undo_send = insert h r.undo_send }, false)

-- The precondition and the effect of `sys_create` and of `sys_bind`.
abbrev some_left : List ℕ → Bool
some_left [] = false
some_left (_ ∷ _) = true

unfoldable pub can_send : Requests → Bool
can_send r = some_left r.send

abbrev sent : Requests → List ℕ → Outcome (ℕ × Requests)
sent r [] = fault
sent r (h ∷ _) = done (h, record r { send = erase h r.send; recv = insert h r.recv })

unfoldable pub send_first : Requests → Outcome (ℕ × Requests)
unfolding insert erase
send_first r = sent r r.send

-- The loop of the precondition and of the effect of `sys_destroy` and of `sys_unbind`: the first
-- helper to undo that is ready.
unfoldable pub first_ready : List ℕ → List ℕ → Option ℕ
unfolding contains
first_ready ready [] = none
first_ready ready (h ∷ hs) = if contains h ready then some h else first_ready ready hs

abbrev is_found : Option ℕ → Bool
is_found none = false
is_found (some _) = true

unfoldable pub can_undo : Requests → Bool
unfolding first_ready
can_undo r = is_found (first_ready r.ready r.undo_send)

abbrev undone : Requests → Option ℕ → Outcome (ℕ × Requests)
undone r none = fault
undone r (some h) =
    done (h, record r { undo_send = erase h r.undo_send; undo_recv = insert h r.undo_recv })

unfoldable pub undo_first : Requests → Outcome (ℕ × Requests)
unfolding first_ready insert erase
undo_first r = undone r (first_ready r.ready r.undo_send)

-- The answer that the request failed.
unfoldable pub failed : Requests → ℕ → Outcome Requests
unfolding contains erase
failed r h =
    if contains h r.recv
    then done (record r { undo_send = erase h r.undo_send; recv = erase h r.recv })
    else fault

-- The answer that the request succeeded.
unfoldable pub succeeded : Requests → ℕ → Outcome Requests
unfolding contains insert erase
succeeded r h =
    if contains h r.recv
    then done (record r { ready = insert h r.ready; recv = erase h r.recv })
    else fault

abbrev leave : Requests → ℕ → Requests
leave r h =
    if contains h r.recv
    then record r { recv = erase h r.recv }
    else if contains h r.ready
    then record r { ready = erase h r.ready }
    else r

abbrev leave_undo : Requests → ℕ → Requests
leave_undo r h =
    if contains h r.undo_send
    then record r { undo_send = erase h r.undo_send }
    else if contains h r.undo_recv
    then record r { undo_recv = erase h r.undo_recv }
    else r

-- The notice that what was asked for is gone.
unfoldable pub finished : Requests → ℕ → Outcome Requests
unfolding contains erase
finished r h =
    if contains h r.recv && not (contains h r.ready)
      || not (contains h r.recv) && contains h r.ready
    then done (leave_undo (leave r h) h)
    else fault
