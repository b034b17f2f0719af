-- ===== src/Executor/Locks.antt =====
-- The locks that an output takes for itself and for the inputs bound to it.
use ioa.Prelude.{
  ℕ, ◌<◌, ◌≡◌, refl, Bool, true, false, ◌&&◌, ◌||◌, not, List, [], ◌∷◌, arith, ◌==◌, ltb,
  Bool-cases, inl, inr,
}
use ioa.FinSet.{contains}
use ioa.Executor.{Binding, Output}
use ioa.Executor.Run.{Step, lock, unlock, in_order, lock_in_order, unlock_in_order}

-- The aids whose locks a list of steps takes, and those whose locks it releases, in order.
abbrev pub locked : List Step → List ℕ
locked [] = []
locked (lock a ∷ s) = a ∷ locked s
locked (_ ∷ s) = locked s

abbrev pub unlocked : List Step → List ℕ
unlocked [] = []
unlocked (unlock a ∷ s) = a ∷ unlocked s
unlocked (_ ∷ s) = unlocked s

-- The aids of the inputs bound to an output.
abbrev pub aids : List (ℕ × Binding) → List ℕ
aids [] = []
aids ((a, b) ∷ m) = a ∷ aids m

abbrev pub any_above : ℕ → List (ℕ × Binding) → Bool
any_above output [] = false
any_above output ((a, b) ∷ m) = ltb output a || any_above output m

-- Every member is greater than the bound, and than all members before it.
pub data AscendsFrom : ℕ → List ℕ → Type 0 where
  done : {low : ℕ} → AscendsFrom low []
  up : {low a : ℕ} {m : List ℕ} → low < a → AscendsFrom a m → AscendsFrom low (a ∷ m)

pub data Ascends : List ℕ → Type 0 where
  none_at_all : Ascends []
  from : {a : ℕ} {m : List ℕ} → AscendsFrom a m → Ascends (a ∷ m)

module _ (output : ℕ) where
  locked-in_order :
      (a : ℕ) (processed : Bool) (m : List (ℕ × Binding))
      → contains a (locked (in_order lock output processed m))
        ≡ (contains a (aids m) || (a == output && not processed && any_above output m))
  unfolding in_order contains
  locked-in_order a processed [] = ground arith
  locked-in_order a processed ((x, b) ∷ m) =
      ground (arith, locked-in_order a processed m, locked-in_order a true m)

  unlocked-in_order :
      (processed : Bool) (m : List (ℕ × Binding))
      → unlocked (in_order unlock output processed m) ≡ locked (in_order lock output processed m)
  unfolding in_order
  unlocked-in_order processed [] = refl
  unlocked-in_order processed ((x, b) ∷ m) =
      ground (arith, unlocked-in_order processed m, unlocked-in_order true m)

  -- The loop keeps the order of the aids, the output's put where it belongs.
  AscendsFrom-in_order :
      (low : ℕ) (processed : Bool) (m : List (ℕ × Binding))
      → contains output (aids m) ≡ false
      → AscendsFrom low (aids m)
      → (processed ≡ false → low < output)
      → AscendsFrom low (locked (in_order lock output processed m))
  unfolding in_order contains
  AscendsFrom-in_order low processed [] absent up_to before = done
  AscendsFrom-in_order low true ((x, b) ∷ m) absent (up h t) before =
      up h (AscendsFrom-in_order x true m (ground arith) t (λ e. absurd (cc e)))
  AscendsFrom-in_order low false ((x, b) ∷ m) absent (up h t) before =
      elim (Bool-cases (ltb output x)) [
        | inl e ↦ rw e (
            up (before refl) (
              up (ground arith)
                (AscendsFrom-in_order x true m (ground arith) t (λ e. absurd (cc e)))))
        | inr e ↦ rw e (up h (AscendsFrom-in_order x false m (ground arith) t (λ _. ground arith)))
      ]

Ascends-in_order :
    (output : ℕ) (m : List (ℕ × Binding))
    → contains output (aids m) ≡ false
    → Ascends (aids m)
    → Ascends (locked (in_order lock output false m))
unfolding in_order contains
Ascends-in_order output [] absent up_to = none_at_all
Ascends-in_order output ((x, b) ∷ m) absent (from t) = elim (Bool-cases (ltb output x)) [
  | inl e ↦ rw e (
      from (
        up (ground arith)
          (AscendsFrom-in_order output x true m (ground arith) t (λ e. absurd (cc e)))))
  | inr e ↦ rw e (from (AscendsFrom-in_order output x false m (ground arith) t (λ _. ground arith)))
]

-- With the bound inputs in ascending order of their aids, as in a std::map, and none of them of the
-- output's own automaton, an output takes its locks in strictly ascending order of the aids, and
-- releases exactly the locks that it took.
pub lock_in_order-Ascends :
    (o : Output)
    → contains o.action.aid (aids o.records) ≡ false
    → Ascends (aids o.records)
    → Ascends (locked (lock_in_order o)) × (unlocked (unlock_in_order o) ≡ locked (lock_in_order o))
unfolding lock_in_order unlock_in_order
lock_in_order-Ascends o absent up_to = (
  Ascends-in_order o.action.aid o.records absent up_to,
  unlocked-in_order o.action.aid false o.records,
)

-- The automata whose locks an output takes are those of the inputs bound to it, and its own exactly
-- when one of them has a greater aid or is its own.
pub lock_in_order-contains :
    (o : Output) (a : ℕ)
    → contains a (locked (lock_in_order o))
      ≡ (contains a (aids o.records) || (a == o.action.aid && any_above o.action.aid o.records))
unfolding lock_in_order
lock_in_order-contains o a = ground (arith, locked-in_order o.action.aid a false o.records)
