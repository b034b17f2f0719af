-- ===== src/FinMap.antt =====
-- std::map with pointers or ids as keys: an association list in ascending order of its keys.
-- `insert` keeps the value of a key that is present, as std::map::insert does.
use ioa.Prelude.{
  ℕ, ◌+◌, ◌≤◌, ◌<◌, ◌≡◌, refl, Bool, true, false, List, [], ◌∷◌, arith, Option, none, some, ltb,
  ◌==◌, if◌then◌else◌, length, is_some, All, Bool-cases, inl, inr, ◌≢◌,
}

module _ {ℓ} {V : Type ℓ} where
  unfoldable pub lookup : ℕ → List (ℕ × V) → Option V
  lookup k [] = none
  lookup k ((j, v) ∷ m) = if k == j then some v else lookup k m

  unfoldable pub place : ℕ → V → List (ℕ × V) → List (ℕ × V)
  place k v [] = (k, v) ∷ []
  place k v ((j, w) ∷ m) = if ltb k j then (k, v) ∷ (j, w) ∷ m else (j, w) ∷ place k v m

  unfoldable pub insert : ℕ → V → List (ℕ × V) → List (ℕ × V)
  unfolding lookup place
  insert k v m = if is_some (lookup k m) then m else place k v m

  unfoldable pub erase : ℕ → List (ℕ × V) → List (ℕ × V)
  erase k [] = []
  erase k ((j, v) ∷ m) = if k == j then erase k m else (j, v) ∷ erase k m

  -- A change of the object that the key's entry points to.
  unfoldable pub modify : ℕ → (V → V) → List (ℕ × V) → List (ℕ × V)
  modify k f [] = []
  modify k f ((j, v) ∷ m) = if k == j then (j, f v) ∷ modify k f m else (j, v) ∷ modify k f m

  abbrev pub opt_map : (V → V) → Option V → Option V
  opt_map f none = none
  opt_map f (some v) = some (f v)

  pub lookup-nil : (k : ℕ) → lookup k [] ≡ none
  unfolding lookup
  lookup-nil k = refl

  lookup-place :
      (j k : ℕ) (v : V) (m : List (ℕ × V))
      → lookup k m ≡ none
      → lookup j (place k v m) ≡ (if j == k then some v else lookup j m)
  unfolding lookup place
  lookup-place j k v [] h = refl
  lookup-place j k v ((i, w) ∷ m) h = ground (arith, lookup-place j k v m)

  pub lookup-insert :
      (j k : ℕ) (v : V) (m : List (ℕ × V))
      → lookup k m ≡ none
      → lookup j (insert k v m) ≡ (if j == k then some v else lookup j m)
  unfolding insert
  lookup-insert j k v m h = ground (arith, lookup-place j k v m)

  pub insert_present :
      (k : ℕ) (v : V) (m : List (ℕ × V)) {w : V} → lookup k m ≡ some w → insert k v m ≡ m
  unfolding insert
  insert_present k v m h = ground arith

  pub lookup-erase :
      (j k : ℕ) (m : List (ℕ × V)) → lookup j (erase k m) ≡ (if j == k then none else lookup j m)
  unfolding lookup erase
  lookup-erase j k [] = ground arith
  lookup-erase j k ((i, w) ∷ m) = ground (arith, lookup-erase j k m)

  pub lookup-modify :
      (j k : ℕ) (f : V → V) (m : List (ℕ × V))
      → lookup j (modify k f m) ≡ (if j == k then opt_map f (lookup j m) else lookup j m)
  unfolding lookup modify
  lookup-modify j k f [] = ground arith
  lookup-modify j k f ((i, w) ∷ m) = ground (arith, lookup-modify j k f m)

  -- The entries whose key satisfies `p`.
  unfoldable pub count_keys : (ℕ → Bool) → List (ℕ × V) → ℕ
  count_keys p [] = 0
  count_keys p ((j, v) ∷ m) = (if p j then 1 else 0) + count_keys p m

  pub count_keys-le_length : (p : ℕ → Bool) (m : List (ℕ × V)) → count_keys p m ≤ length m
  unfolding count_keys
  count_keys-le_length p [] = omega arith
  count_keys-le_length p ((j, v) ∷ m) = ground (arith, count_keys-le_length p m)

  pub count_keys-modify :
      (p : ℕ → Bool) (k : ℕ) (f : V → V) (m : List (ℕ × V))
      → count_keys p (modify k f m) ≡ count_keys p m
  unfolding count_keys modify
  count_keys-modify p k f [] = refl
  count_keys-modify p k f ((j, v) ∷ m) = ground (arith, count_keys-modify p k f m)

  count_keys-erase-le :
      (p : ℕ → Bool) (k : ℕ) (m : List (ℕ × V)) → count_keys p (erase k m) ≤ count_keys p m
  unfolding count_keys erase
  count_keys-erase-le p k [] = omega arith
  count_keys-erase-le p k ((j, v) ∷ m) = ground (arith, count_keys-erase-le p k m)

  pub count_keys-erase-lt :
      (p : ℕ → Bool) (k : ℕ) (m : List (ℕ × V))
      → is_some (lookup k m) ≡ true
      → p k ≡ true
      → count_keys p (erase k m) < count_keys p m
  unfolding count_keys erase lookup
  count_keys-erase-lt p k [] h t = absurd (ground arith)
  count_keys-erase-lt p k ((j, v) ∷ m) h t =
      ground (arith, count_keys-erase-lt p k m, count_keys-erase-le p k m)

  -- A stronger test that fails at a key that is present counts fewer entries.
  count_keys-le :
      (p q : ℕ → Bool)
      → ((j : ℕ) → p j ≡ true → q j ≡ true)
      → (m : List (ℕ × V)) → count_keys p m ≤ count_keys q m
  unfolding count_keys
  count_keys-le p q sub [] = omega arith
  count_keys-le p q sub ((j, v) ∷ m) = ground (arith, sub j, count_keys-le p q sub m)

  pub count_keys-lt :
      (p q : ℕ → Bool)
      → ((j : ℕ) → p j ≡ true → q j ≡ true)
      → (k : ℕ) (m : List (ℕ × V)) → is_some (lookup k m) ≡ true
      → p k ≡ false
      → q k ≡ true
      → count_keys p m < count_keys q m
  unfolding count_keys lookup
  count_keys-lt p q sub k [] h f t = absurd (ground arith)
  count_keys-lt p q sub k ((j, v) ∷ m) h f t =
      ground (arith, sub j, count_keys-lt p q sub k m, count_keys-le p q sub m)

  place-ne_nil : (k : ℕ) (v : V) (m : List (ℕ × V)) → place k v m ≢ []
  unfolding place
  place-ne_nil k v [] e = ground arith
  place-ne_nil k v ((j, w) ∷ m) e = ground arith

  pub insert-ne_nil : (k : ℕ) (v : V) (m : List (ℕ × V)) → lookup k m ≡ none → insert k v m ≢ []
  unfolding insert
  insert-ne_nil k v m h e = ground (arith, place-ne_nil k v m)

  place-All {κ} :
      (P : ℕ × V → Type κ) (k : ℕ) (v : V) (m : List (ℕ × V))
      → P (k, v)
      → All P m
      → All P (place k v m)
  unfolding place
  place-All P k v [] p h = (p, tt)
  place-All P k v ((j, w) ∷ m) p h = elim (Bool-cases (ltb k j)) [
    | inl e ↦ rw e (p, h)
    | inr e ↦ rw e (h.0, place-All P k v m p h.1)
  ]

  pub insert-All {κ} :
      (P : ℕ × V → Type κ) (k : ℕ) (v : V) (m : List (ℕ × V))
      → P (k, v)
      → All P m
      → All P (insert k v m)
  unfolding insert
  insert-All P k v m p h = elim (Bool-cases (is_some (lookup k m))) [
    | inl e ↦ rw e h
    | inr e ↦ rw e (place-All P k v m p h)
  ]

  pub insert_absent :
      (k : ℕ) (v : V) (m : List (ℕ × V)) → lookup k m ≡ none → insert k v m ≡ place k v m
  unfolding insert
  insert_absent k v m h = rw h refl
