-- ===== src/Requests/Phases.antt =====
-- The sets of helpers of lib/automaton.cpp as a state machine: the phases of a helper, and the
-- arrows that the operations stand for.
use ioa.Prelude.{
  ℕ, ◌≡◌, refl, ◌≢◌, ◌⊎◌, inl, inr, Bool, true, false, List, [], ◌∷◌, Option, none, some, arith,
  ◌==◌, if◌then◌else◌, sym, ◌∙◌,
}
use ioa.FinSet.{contains, contains-insert, contains-erase, contains-nil}
use ioa.Outcome.{Outcome, fault, done}
use ioa.Requests.{
  Requests, none_yet, add, withdraw, can_send, send_first, can_undo, undo_first, failed, succeeded,
  finished, first_ready, some_left, sent, is_found, undone,
}

-- `waiting` is for the answer to the request, `withdrawn` is waiting with the undo asked for before
-- the answer, `closing` has the undo asked for after it, and `undoing` has sent the undo.
pub data Phase : Type 0 where
  absent sending waiting withdrawn active closing undoing broken : Phase

-- By membership in send, recv, ready, undo_send and undo_recv.
abbrev pub phase_of : Bool → Bool → Bool → Bool → Bool → Phase
phase_of false false false false false = absent
phase_of true false false false false = sending
phase_of false true false false false = waiting
phase_of false true false true false = withdrawn
phase_of false false true false false = active
phase_of false false true true false = closing
phase_of false false true false true = undoing
phase_of _ _ _ _ _ = broken

unfoldable pub phase : Requests → ℕ → Phase
phase r h =
    phase_of (contains h r.send) (contains h r.recv) (contains h r.ready) (contains h r.undo_send)
      (contains h r.undo_recv)

-- No helper is in a combination of sets that has no phase.
abbrev pub IsValid : Requests → Type 0
IsValid r = (h : ℕ) → phase r h ≢ broken

-- Seen at the helper `j`, an operation on the helper `h` does what the phases say: with no next
-- phase it faults, and with one it takes `h` there and leaves the others where they are.
abbrev pub Agrees : Requests → (h j : ℕ) → Option Phase → Outcome Requests → Type 0
Agrees r h j none fault = Unit
Agrees r h j none (done s) = ⊥
Agrees r h j (some q) fault = ⊥
Agrees r h j (some q) (done s) = phase s j ≡ (if j == h then q else phase r j)

abbrev pub on_add : Phase → Option Phase
on_add absent = some sending
on_add _ = none

abbrev pub on_withdraw : Phase → Option Phase
on_withdraw sending = some absent
on_withdraw waiting = some withdrawn
on_withdraw active = some closing
on_withdraw _ = none

abbrev pub on_failed : Phase → Option Phase
on_failed waiting = some absent
on_failed withdrawn = some absent
on_failed _ = none

abbrev pub on_succeeded : Phase → Option Phase
on_succeeded waiting = some active
on_succeeded withdrawn = some closing
on_succeeded _ = none

abbrev pub on_finished : Phase → Option Phase
on_finished absent = none
on_finished sending = none
on_finished _ = some absent

-- In sets in which every helper is in one of the seven phases, adding a helper that is not null
-- takes it from absent to sending, and faults in any other phase; no other helper's phase changes.
pub add-Agrees :
    (r : Requests) (h j : ℕ) → h ≢ 0 → IsValid r → Agrees r h j (on_add (phase r h)) (add r h)
unfolding add phase
add-Agrees r h j nz v = ground (arith, v h, v j, contains-insert j h r.send)

abbrev pub state_of : Outcome (Requests × Bool) → Outcome Requests
state_of fault = fault
state_of (done (s, told)) = done s

-- In sets in which every helper is in one of the seven phases, withdrawing a helper that is not
-- null drops it if it is sending, takes it from waiting to withdrawn and from active to closing,
-- and faults in any other phase; no other helper's phase changes.
pub withdraw-Agrees :
    (r : Requests) (h j : ℕ)
    → h ≢ 0
    → IsValid r
    → Agrees r h j (on_withdraw (phase r h)) (state_of (withdraw r h))
unfolding withdraw phase
withdraw-Agrees r h j nz v =
    ground (arith, v h, v j, contains-erase j h r.send, contains-insert j h r.undo_send)

-- In sets in which every helper is in one of the seven phases, the answer that the request failed
-- takes a helper that is waiting or withdrawn to absent, and faults in any other phase; no other
-- helper's phase changes.
pub failed-Agrees :
    (r : Requests) (h j : ℕ) → IsValid r → Agrees r h j (on_failed (phase r h)) (failed r h)
unfolding failed phase
failed-Agrees r h j v =
    ground (arith, v h, v j, contains-erase j h r.recv, contains-erase j h r.undo_send)

-- In sets in which every helper is in one of the seven phases, the answer that the request
-- succeeded takes a helper from waiting to active and from withdrawn to closing, and faults in any
-- other phase; no other helper's phase changes.
pub succeeded-Agrees :
    (r : Requests) (h j : ℕ) → IsValid r → Agrees r h j (on_succeeded (phase r h)) (succeeded r h)
unfolding succeeded phase
succeeded-Agrees r h j v =
    ground (arith, v h, v j, contains-erase j h r.recv, contains-insert j h r.ready)

-- In sets in which every helper is in one of the seven phases, the notice of the end takes a helper
-- to absent, and faults if it is absent or sending; no other helper's phase changes.
pub finished-Agrees :
    (r : Requests) (h j : ℕ) → IsValid r → Agrees r h j (on_finished (phase r h)) (finished r h)
unfolding finished phase
finished-Agrees r h j v = ground (
  arith,
  v h,
  v j,
  contains-erase j h r.recv,
  contains-erase j h r.ready,
  contains-erase j h r.undo_send,
  contains-erase j h r.undo_recv,
)

Agrees-next :
    (r s : Requests) (h j : ℕ) (p : Option Phase)
    → Agrees r h j p (done s)
    → (phase s j ≡ phase r j) ⊎ ((j ≡ h) × (p ≡ some (phase s j)))
Agrees-next r s h j none a = absurd a
Agrees-next r s h j (some q) a = ground arith

-- What keeps the other helpers out of `broken` and takes its own helper to a phase that is none.
pub Agrees-IsValid :
    (r s : Requests) (h : ℕ) (p : Option Phase)
    → IsValid r
    → p ≢ some broken
    → ((j : ℕ) → Agrees r h j p (done s))
    → IsValid s
Agrees-IsValid r s h p v ne a j e = elim (Agrees-next r s h j p (a j)) [
  | inl same ↦ v j (sym same ∙ e)
  | inr (_, q) ↦ ne (ground arith)
]

contains-some_left : (xs : List ℕ) {x : ℕ} {ys : List ℕ} → xs ≡ x ∷ ys → contains x xs ≡ true
unfolding contains
contains-some_left xs e = rw e (ground arith)

abbrev pub on_send : Phase → Option Phase
on_send sending = some waiting
on_send _ = none

abbrev pub on_undo : Phase → Option Phase
on_undo closing = some undoing
on_undo _ = none

-- `send_first` faults exactly when there is nothing to send, and otherwise moves the helper that it
-- returns from `sending` to `waiting`.
abbrev pub Takes :
    Requests → (j : ℕ) → Bool → (Phase → Option Phase) → Outcome (ℕ × Requests) → Type 0
Takes r j can on fault = can ≡ false
Takes r j can on (done (h, s)) = (can ≡ true) × Agrees r h j (on (phase r h)) (done s)

send_from :
    (r : Requests) (j : ℕ) (xs : List ℕ)
    → r.send ≡ xs
    → IsValid r
    → Takes r j (some_left xs) on_send (sent r xs)
unfolding phase
send_from r j [] e v = refl
send_from r j (x ∷ xs) e v = (
  refl,
  ground (
    arith,
    v x,
    v j,
    contains-some_left r.send e,
    contains-erase j x r.send,
    contains-insert j x r.recv,
  ),
)

-- In sets in which every helper is in one of the seven phases, the effect of sending faults exactly
-- when its precondition is false; otherwise it takes a helper from sending to waiting, and no other
-- helper's phase changes.
pub send_first-Takes :
    (r : Requests) (j : ℕ) → IsValid r → Takes r j (can_send r) on_send (send_first r)
unfolding send_first can_send
send_first-Takes r j v = send_from r j r.send refl v

first_ready-mem :
    (ready xs : List ℕ) (h : ℕ)
    → first_ready ready xs ≡ some h
    → (contains h xs ≡ true) × (contains h ready ≡ true)
unfolding first_ready contains
first_ready-mem ready [] h e = absurd (ground arith)
first_ready-mem ready (x ∷ xs) h e = ground (arith, first_ready-mem ready xs h)

undo_from :
    (r : Requests) (j : ℕ) (o : Option ℕ)
    → first_ready r.ready r.undo_send ≡ o
    → IsValid r
    → Takes r j (is_found o) on_undo (undone r o)
unfolding phase
undo_from r j none e v = refl
undo_from r j (some h) e v = (
  refl,
  ground (
    arith,
    v h,
    v j,
    first_ready-mem r.ready r.undo_send h e,
    contains-erase j h r.undo_send,
    contains-insert j h r.undo_recv,
  ),
)

-- In sets in which every helper is in one of the seven phases, the effect of undoing faults exactly
-- when its precondition is false; otherwise it takes a helper from closing to undoing, and no other
-- helper's phase changes.
pub undo_first-Takes :
    (r : Requests) (j : ℕ) → IsValid r → Takes r j (can_undo r) on_undo (undo_first r)
unfolding undo_first can_undo
undo_first-Takes r j v = undo_from r j (first_ready r.ready r.undo_send) refl v

pub none_yet-phase : (h : ℕ) → phase none_yet h ≡ absent
unfolding phase none_yet
none_yet-phase h = rw contains-nil
