-- ===== src/TcpConnection/Bytes.antt =====
-- The two directions of a connection (lib/tcp_connection_automaton.cpp): its states and what they leave
-- in the buffers.
use ioa.Prelude.{
  ℕ, suc, ◌+◌, ◌-◌, ◌≤◌, ◌≡◌, refl, true, false, List, [], ◌∷◌, ◌++◌, arith, ◌==◌, if◌then◌else◌,
  length, Bool-cases, inl, inr, sym, ap, ◌∙◌,
}
use ioa.Scheduler.Queue.{append_nil, append_assoc}
use ioa.TcpConnection.{
  SendState, send_wait, schedule_write_ready, write_ready_wait, send_complete_ready, ReceiveState,
  schedule_read_ready, read_ready_wait, receive_ready, take, drop, is_send_wait, is_schedule_write,
  is_write_wait, is_complete, is_schedule_read, is_read_wait, is_receive,
}

take-drop : (n : ℕ) (xs : List ℕ) → take n xs ++ drop n xs ≡ xs
unfolding take drop
take-drop n [] = refl
take-drop n (x ∷ xs) = elim (Bool-cases (n == 0)) [
  | inl e ↦ rw e refl
  | inr e ↦ rw e (ap (λ z. x ∷ z) (take-drop (n - 1) xs))
]

drop-drop : (m n : ℕ) (xs : List ℕ) → drop n (drop m xs) ≡ drop (m + n) xs
unfolding drop
drop-drop m n [] = refl
drop-drop m n (x ∷ xs) = elim (Bool-cases (m == 0)) [
  | inl e ↦ rw e (ap (λ k. drop k (x ∷ xs)) ground arith)
  | inr e ↦
      let f : ((m + n) == 0) ≡ false = ground arith in
      let g : m + n - 1 ≡ m - 1 + n = ground arith in rw (e, f, g) (drop-drop (m - 1) n xs)
]

drop-length : (xs : List ℕ) → drop (length xs) xs ≡ []
unfolding drop
drop-length [] = refl
drop-length (x ∷ xs) =
    let f : (suc (length xs) == 0) ≡ false = ground arith in
    let g : suc (length xs) - 1 ≡ length xs = ground arith in rw (f, g) (drop-length xs)

-- What of the buffer is still to be written.
abbrev pub unsent_in : SendState → List ℕ → ℕ → List ℕ
unsent_in send_wait buf n = []
unsent_in schedule_write_ready buf n = drop n buf
unsent_in write_ready_wait buf n = drop n buf
unsent_in send_complete_ready buf n = []

-- What has been read and not yet handed on.
abbrev pub unreceived_in : ReceiveState → List ℕ → List ℕ
unreceived_in schedule_read_ready buf = []
unreceived_in read_ready_wait buf = []
unreceived_in receive_ready buf = buf

-- The bytes written are those accepted, in order, but for the rest of the buffer; those handed on are
-- those read, but for the last.
abbrev pub Sending : SendState → List ℕ → ℕ → List ℕ → List ℕ → Type 0
Sending st buf n written accepted = (written ++ unsent_in st buf n ≡ accepted) × (n ≤ length buf)

abbrev pub Receiving : ReceiveState → List ℕ → List ℕ → List ℕ → Type 0
Receiving st buf read delivered = delivered ++ unreceived_in st buf ≡ read

pub send-Sending :
    (st : SendState) (old buf : List ℕ) (n : ℕ) (w a : List ℕ)
    → is_send_wait st ≡ true
    → Sending st old n w a
    → Sending schedule_write_ready buf 0 w (a ++ buf)
unfolding drop
send-Sending send_wait old buf n w a h v =
    (ap (λ z. w ++ z) (drop_none buf) ∙ ap (λ z. z ++ buf) (append_nil w ∙ v.0), omega arith)
  where
    drop_none : (xs : List ℕ) → drop 0 xs ≡ xs
    drop_none [] = refl
    drop_none (x ∷ xs) = ground arith
send-Sending schedule_write_ready old buf n w a h v = absurd (ground arith)
send-Sending write_ready_wait old buf n w a h v = absurd (ground arith)
send-Sending send_complete_ready old buf n w a h v = absurd (ground arith)

pub scheduled-Sending :
    (st : SendState) (buf : List ℕ) (n : ℕ) (w a : List ℕ)
    → is_schedule_write st ≡ true
    → Sending st buf n w a
    → Sending write_ready_wait buf n w a
scheduled-Sending schedule_write_ready buf n w a h v = v
scheduled-Sending send_wait buf n w a h v = absurd (ground arith)
scheduled-Sending write_ready_wait buf n w a h v = absurd (ground arith)
scheduled-Sending send_complete_ready buf n w a h v = absurd (ground arith)

abbrev pub after : ℕ → ℕ → SendState
after total size = if total == size then send_complete_ready else schedule_write_ready

pub wrote-Sending :
    (st : SendState) (buf : List ℕ) (n k : ℕ) (w a : List ℕ)
    → is_write_wait st ≡ true
    → n + k ≤ length buf
    → Sending st buf n w a
    → Sending (after (n + k) (length buf)) buf (n + k) (w ++ take k (drop n buf)) a
wrote-Sending write_ready_wait buf n k w a h fits v =
    let split : (w ++ take k (drop n buf)) ++ drop (n + k) buf ≡ a =
      append_assoc w _ _
      ∙ ap (λ z. w ++ (take k (drop n buf) ++ z)) (sym (drop-drop n k buf))
      ∙ ap (λ z. w ++ z) (take-drop k (drop n buf))
      ∙ v.0 in
    elim (Bool-cases ((n + k) == length buf)) [
      | inl e ↦
          let q : n + k ≡ length buf = ground arith in
          rw e (
            ap (λ z. (w ++ take k (drop n buf)) ++ z)
                  (sym (ap (λ z. drop z buf) q ∙ drop-length buf))
                ∙ split,
            fits,
          )
      | inr e ↦ rw e (split, fits)
    ]
wrote-Sending send_wait buf n k w a h fits v = absurd (ground arith)
wrote-Sending schedule_write_ready buf n k w a h fits v = absurd (ground arith)
wrote-Sending send_complete_ready buf n k w a h fits v = absurd (ground arith)

pub completed-Sending :
    (st : SendState) (buf : List ℕ) (n : ℕ) (w a : List ℕ)
    → is_complete st ≡ true
    → Sending st buf n w a
    → Sending send_wait buf n w a
completed-Sending send_complete_ready buf n w a h v = v
completed-Sending send_wait buf n w a h v = absurd (ground arith)
completed-Sending schedule_write_ready buf n w a h v = absurd (ground arith)
completed-Sending write_ready_wait buf n w a h v = absurd (ground arith)

pub scheduled-Receiving :
    (st : ReceiveState) (buf r d : List ℕ)
    → is_schedule_read st ≡ true
    → Receiving st buf r d
    → Receiving read_ready_wait buf r d
scheduled-Receiving schedule_read_ready buf r d h v = v
scheduled-Receiving read_ready_wait buf r d h v = absurd (ground arith)
scheduled-Receiving receive_ready buf r d h v = absurd (ground arith)

pub read-Receiving :
    (st : ReceiveState) (old bytes r d : List ℕ)
    → is_read_wait st ≡ true
    → Receiving st old r d
    → Receiving receive_ready bytes (r ++ bytes) d
read-Receiving read_ready_wait old bytes r d h v = ap (λ z. z ++ bytes) (append_nil d ∙ v)
read-Receiving schedule_read_ready old bytes r d h v = absurd (ground arith)
read-Receiving receive_ready old bytes r d h v = absurd (ground arith)

pub delivered-Receiving :
    (st : ReceiveState) (buf r d : List ℕ)
    → is_receive st ≡ true
    → Receiving st buf r d
    → Receiving schedule_read_ready buf r (d ++ buf)
delivered-Receiving receive_ready buf r d h v = sym (append_nil (d ++ buf)) ∙ v
delivered-Receiving schedule_read_ready buf r d h v = absurd (ground arith)
delivered-Receiving read_ready_wait buf r d h v = absurd (ground arith)
