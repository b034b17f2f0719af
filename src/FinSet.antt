-- ===== src/FinSet.antt =====
-- std::set over pointers and ids: a list in ascending order without repetition. The laws of
-- membership hold of every list, so that no client carries the order along.
use ioa.Prelude.{
  ℕ, ◌≤◌, ◌<◌, ◌≡◌, refl, Bool, true, false, not, ◌&&◌, ◌||◌, List, [], ◌∷◌, arith, ltb, ◌==◌,
  if◌then◌else◌, length,
}

unfoldable pub contains : ℕ → List ℕ → Bool
contains a [] = false
contains a (x ∷ xs) = a == x || contains a xs

place : ℕ → List ℕ → List ℕ
place a [] = a ∷ []
place a (x ∷ xs) = if ltb a x then a ∷ x ∷ xs else x ∷ place a xs

unfoldable pub insert : ℕ → List ℕ → List ℕ
unfolding contains place
insert a xs = if contains a xs then xs else place a xs

unfoldable pub erase : ℕ → List ℕ → List ℕ
erase a [] = []
erase a (x ∷ xs) = if a == x then erase a xs else x ∷ erase a xs

pub contains-nil : (a : ℕ) → contains a [] ≡ false
unfolding contains
contains-nil a = refl

contains-place : (b a : ℕ) (xs : List ℕ) → contains b (place a xs) ≡ (b == a || contains b xs)
unfolding contains place
contains-place b a [] = refl
contains-place b a (x ∷ xs) = ground (arith, contains-place b a xs)

pub contains-insert : (b a : ℕ) (xs : List ℕ) → contains b (insert a xs) ≡ (b == a || contains b xs)
unfolding insert
contains-insert b a xs = ground (arith, contains-place b a xs)

pub contains-erase :
    (b a : ℕ) (xs : List ℕ) → contains b (erase a xs) ≡ (not (b == a) && contains b xs)
unfolding contains erase
contains-erase b a [] = ground arith
contains-erase b a (x ∷ xs) = ground (arith, contains-erase b a xs)

length-erase-le : (a : ℕ) (xs : List ℕ) → length (erase a xs) ≤ length xs
unfolding erase
length-erase-le a [] = omega arith
length-erase-le a (x ∷ xs) = ground (arith, length-erase-le a xs)

pub length-erase-lt : (a : ℕ) (xs : List ℕ) → contains a xs ≡ true → length (erase a xs) < length xs
unfolding erase contains
length-erase-lt a [] h = ground arith
length-erase-lt a (x ∷ xs) h = ground (arith, length-erase-lt a xs, length-erase-le a xs)
