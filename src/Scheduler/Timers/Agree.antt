-- ===== src/Scheduler/Timers/Agree.antt =====
-- What the two maps of the timers have to do with one another, and how an insertion and an erasure
-- of the multimap act on it.
use ioa.Prelude.{
  ℕ, suc, ◌+◌, ◌≤◌, ◌≡◌, refl, true, false, List, [], ◌∷◌, arith, Option, none, some, if◌then◌else◌,
  length, All, All-map, Bool-cases, inl, inr,
}
use ioa.Time.{Time}
use ioa.Time.Exact.{less}
use ioa.Runnable.{ActionRunnable, equivalent}
use ioa.Scheduler.Timers.{Timers, init, place, find_action, erase_action}
use ioa.Scheduler.Timers.Order.{less_trans, less_asym, equivalent_sym, equivalent_trans}

-- The time of the first entry of the runnable's action.
unfoldable pub first : ActionRunnable → List (Time × ActionRunnable) → Option Time
first r [] = none
first r ((u, x) ∷ l) = if equivalent x r then some u else first r l

unfoldable pub count : ActionRunnable → List (Time × ActionRunnable) → ℕ
count r [] = 0
count r ((u, x) ∷ l) = (if equivalent x r then 1 else 0) + count r l

abbrev pub time_of : Option (ActionRunnable × Time) → Option Time
time_of none = none
time_of (some (x, t)) = some t

-- The time at which an action is to run.
abbrev pub when : ActionRunnable → Timers → Option Time
when r s = time_of (find_action r s.action_to_time)

-- No entry is earlier than `t`.
abbrev pub From : Time → List (Time × ActionRunnable) → Type 0
From t l = All (λ e. less e.0 t ≡ false) l

abbrev pub IsSorted : List (Time × ActionRunnable) → Type 0
IsSorted [] = Unit
IsSorted ((t, x) ∷ l) = From t l × IsSorted l

-- The multimap is in order, has at most one entry for an action, and the map gives its time.
pub record Agree (s : Timers) : Type 0 where
  pub sorted : IsSorted s.time_to_action
  pub once : (r : ActionRunnable) → count r s.time_to_action ≤ 1
  pub agree : (r : ActionRunnable) → when r s ≡ first r s.time_to_action

pub count_absent :
    (r : ActionRunnable) (l : List (Time × ActionRunnable)) → first r l ≡ none → count r l ≡ 0
unfolding first count
count_absent r [] h = refl
count_absent r ((u, x) ∷ l) h = ground (arith, count_absent r l)

pub first_absent :
    (r : ActionRunnable) (l : List (Time × ActionRunnable)) → count r l ≡ 0 → first r l ≡ none
unfolding first count
first_absent r [] h = refl
first_absent r ((u, x) ∷ l) h = ground (arith, first_absent r l)

pub count-same :
    (r x : ActionRunnable) (l : List (Time × ActionRunnable))
    → equivalent x r ≡ true
    → count x l ≡ count r l
unfolding count
count-same r x [] h = refl
count-same r x ((u, y) ∷ l) h =
    let a = equivalent_sym y x in
    let b = equivalent_sym y r in
    let c = equivalent_trans x r y h in
    let d = equivalent_sym x y in let e = equivalent_sym r y in ground (arith, count-same r x l h)

pub first-same :
    (r x : ActionRunnable) (l : List (Time × ActionRunnable))
    → equivalent x r ≡ true
    → first x l ≡ first r l
unfolding first
first-same r x [] h = refl
first-same r x ((u, y) ∷ l) h =
    let c = equivalent_trans x r y h in
    let d = equivalent_sym x y in let e = equivalent_sym r y in ground (arith, first-same r x l h)

pub find-erase :
    (j r : ActionRunnable) (m : List (ActionRunnable × Time))
    → time_of (find_action j (erase_action r m))
      ≡ (if equivalent r j then none else time_of (find_action j m))
unfolding find_action erase_action
find-erase j r [] = ground arith
find-erase j r ((x, t) ∷ m) = let c = equivalent_trans x r j in ground (arith, find-erase j r m, c)

pub count-place :
    (j r : ActionRunnable) (t : Time) (l : List (Time × ActionRunnable))
    → count j (place t r l) ≡ (if equivalent r j then 1 else 0) + count j l
unfolding count place
count-place j r t [] = refl
count-place j r t ((u, x) ∷ l) = ground (arith, count-place j r t l)

pub first-place :
    (j r : ActionRunnable) (t : Time) (l : List (Time × ActionRunnable))
    → count r l ≡ 0
    → first j (place t r l) ≡ (if equivalent r j then some t else first j l)
unfolding first count place
first-place j r t [] h = refl
first-place j r t ((u, x) ∷ l) h =
    let c = equivalent_trans r j x in
    let d = equivalent_sym r x in
    let e = equivalent_sym j x in ground (arith, first-place j r t l, c)

From-place :
    (t u : Time) (r : ActionRunnable) (l : List (Time × ActionRunnable))
    → less u t ≡ false
    → From t l
    → From t (place u r l)
unfolding place
From-place t u r [] h k = (h, tt)
From-place t u r ((v, x) ∷ l) h k = elim (Bool-cases (less u v)) [
  | inl e ↦ rw e (h, k)
  | inr e ↦ rw e (k.0, From-place t u r l h k.1)
]

pub place-IsSorted :
    (t : Time) (r : ActionRunnable) (l : List (Time × ActionRunnable))
    → IsSorted l
    → IsSorted (place t r l)
unfolding place
place-IsSorted t r [] s = (tt, tt)
place-IsSorted t r ((u, x) ∷ l) s = elim (Bool-cases (less t u)) [
  | inl e ↦
      rw e ((less_asym t u e, All-map _ _ (λ v. less_trans t u v.0 (less_asym t u e)) l s.0), s)
  | inr e ↦ rw e (From-place u t r l e s.0, place-IsSorted t r l s.1)
]

pub length-place :
    (t : Time) (r : ActionRunnable) (l : List (Time × ActionRunnable))
    → length (place t r l) ≡ suc (length l)
unfolding place
length-place t r [] = refl
length-place t r ((u, x) ∷ l) = ground (arith, length-place t r l)

pub init-Agree : Agree init
unfolding init first find_action count
init-Agree = record { sorted = tt; once = λ r. omega arith; agree = λ r. refl }
