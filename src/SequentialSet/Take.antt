-- ===== src/SequentialSet/Take.antt =====
-- `take` of lib/sequential_set.hpp: the rounds of its loop, and what it returns.
use ioa.Prelude.{
  ℕ, zero, suc, ◌+◌, ◌≤◌, ◌<◌, ◌≡◌, refl, ◌≢◌, ◌⊎◌, inl, inr, true, false, List, none, some, arith,
  ◌==◌, ◌||◌, ap, length, Bool-cases, Option-cases,
}
use ioa.FinSet.{contains, insert, erase, contains-insert, contains-erase, length-erase-lt}
use ioa.SequentialSet.{SequentialSet, limit, next, take_from, take, has}

-- The rounds from `c` after which the counter comes to `x`.
abbrev pub Ahead : ℕ → ℕ → ℕ → Type 0
Ahead f c x = (f + c < x) ⊎ ((x ≤ c) × (f + c < x + limit))

next-lt : (c : ℕ) → c < limit → next c < limit
unfolding next
next-lt c h = ground arith

Ahead-next :
    (f c x : ℕ) → c < limit → x < limit → Ahead (suc f) c x → (next c ≢ x) × Ahead f (next c) x
unfolding next
Ahead-next f c x hc hx h = ground arith

-- An id that the loop does not come to may as well be free.
take_from-erase :
    (f c x : ℕ) (used : List ℕ)
    → c < limit
    → x < limit
    → Ahead f c x
    → take_from f c used ≡ none
    → take_from f c (erase x used) ≡ none
unfolding take_from
take_from-erase zero c x used hc hx a h = refl
take_from-erase (suc f) c x used hc hx a h =
    let (ne, a') = Ahead-next f c x hc hx a in
    elim (Bool-cases (contains (next c) used)) [
      | inl e ↦ ground (
        arith,
        contains-erase (next c) x used,
        take_from-erase f (next c) x used (next-lt c hc) hx a',
      )
      | inr e ↦ ground arith
    ]

take_from-none :
    (f c : ℕ) (used : List ℕ) → c < limit → f ≤ limit → take_from f c used ≡ none → f ≤ length used
unfolding take_from
take_from-none zero c used hc hf h = omega arith
take_from-none (suc f) c used hc hf h = elim (Bool-cases (contains (next c) used)) [
  | inl e ↦
      let n : next c < limit = next-lt c hc in
      let ih = take_from-none f (next c) (erase (next c) used) n (omega arith) (
        take_from-erase f (next c) (next c) used n n (inr (omega arith, omega arith))
          (ground arith)) in
      omega (arith, ih, length-erase-lt (next c) used e)
  | inr e ↦ ground arith
]

-- With an id below the limit free, `take` returns.
take_from_total :
    (s : SequentialSet)
    → s.counter < limit
    → length s.used < limit
    → (c : ℕ) × (take_from (suc (length s.used)) s.counter s.used ≡ some c)
take_from_total s hc hu = elim (Option-cases (take_from (suc (length s.used)) s.counter s.used)) [
  | inl e ↦
      absurd
        (omega (arith, take_from-none (suc (length s.used)) s.counter s.used hc (omega arith) e))
  | inr found ↦ found
]

-- The rounds of the loop from one counter to a later one.
pub data Passes (used : List ℕ) : ℕ → ℕ → Type 0 where
  stop : {c x : ℕ} → x ≡ next c → contains x used ≡ false → Passes used c x
  pass : {c x : ℕ} → contains (next c) used ≡ true → Passes used (next c) x → Passes used c x

take_from-Passes : (f c x : ℕ) (used : List ℕ) → take_from f c used ≡ some x → Passes used c x
unfolding take_from
take_from-Passes zero c x used h = absurd (ground arith)
take_from-Passes (suc f) c x used h = elim (Bool-cases (contains (next c) used)) [
  | inl e ↦ pass e (take_from-Passes f (next c) x used (ground arith))
  | inr e ↦ stop (ground arith) (ground arith)
]

take_from-lt : (f c x : ℕ) (used : List ℕ) → c < limit → take_from f c used ≡ some x → x < limit
unfolding take_from
take_from-lt zero c x used hc h = absurd (ground arith)
take_from-lt (suc f) c x used hc h =
    ground (arith, next-lt c hc, take_from-lt f (next c) x used (next-lt c hc))

Passes-fresh : {used : List ℕ} {c x : ℕ} → Passes used c x → contains x used ≡ false
Passes-fresh (stop e h) = h
Passes-fresh (pass h p) = Passes-fresh p

take-eq_some :
    (s : SequentialSet) {a : ℕ} {t : SequentialSet}
    → take s ≡ some (a, t)
    → (take_from (suc (length s.used)) s.counter s.used ≡ some a)
      × (t ≡ record { counter = a; used = insert a s.used })
unfolding take
take-eq_some s h = ground arith

pub record IsTaken (s : SequentialSet) (a : ℕ) (t : SequentialSet) : Type 0 where
  pub fresh : has s a ≡ false
  pub passes : Passes s.used s.counter a
  pub bound : a < limit
  pub counter : t.counter ≡ a
  pub members : (b : ℕ) → has t b ≡ (b == a || has s b)

-- What a `take` that returns has done: the id was free, it is the first free one after the counter,
-- and the set holds it now beside what it held before.
pub take-IsTaken :
    (s : SequentialSet) {a : ℕ} {t : SequentialSet}
    → s.counter < limit
    → take s ≡ some (a, t)
    → IsTaken s a t
take-IsTaken s {a} {t} hc h =
    let (found, made) = take-eq_some s h in
    let p = take_from-Passes _ s.counter a s.used found in
    record {
      fresh = Passes-fresh p;
      passes = p;
      bound = take_from-lt _ s.counter a s.used hc found;
      counter = ap (λ (u : SequentialSet). u.counter) made;
      members = λ b. rw made (contains-insert b a s.used);
    }

-- With a counter below 2 ^ 63 and fewer than 2 ^ 63 ids in use, `take` returns: with the first free
-- id after the counter, which it adds to the ids in use and takes for the new counter.
pub take_total :
    (s : SequentialSet)
    → s.counter < limit
    → length s.used < limit
    → (a : ℕ) × (t : SequentialSet) × (take s ≡ some (a, t)) × IsTaken s a t
unfolding take
take_total s hc hu =
    let (a, e) = take_from_total s hc hu in
    let made : take s ≡ some (a, record { counter = a; used = insert a s.used }) = rw e in
    (a, record { counter = a; used = insert a s.used }, made, take-IsTaken s hc made)
