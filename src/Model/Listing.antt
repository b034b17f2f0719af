-- ===== src/Model/Listing.antt =====
-- Searching the list of executors, and changing or removing the one that was found.
use ioa.Prelude.{
  ℕ, ◌+◌, ◌≡◌, refl, Bool, true, List, [], ◌∷◌, some, arith, All, Bool-cases, inl, inr, subst,
}
use ioa.Executor.{Output}
use ioa.Executor.Bindings.{count, count_outputs}
use ioa.Model.Bind.{find_if, replace_first, remove_first, any_output}

module _ (p : Output → Bool) where
  pub find_if-test : (o : Output) (os : List Output) → find_if p os ≡ some o → p o ≡ true
  unfolding find_if
  find_if-test o [] e = absurd (ground arith)
  find_if-test o (c ∷ os) e = elim (Bool-cases (p c)) [
    | inl hit ↦ let same : c ≡ o = ground arith in rw same at hit
    | inr miss ↦ find_if-test o os (ground arith)
  ]

  pub find_if-All {κ} :
      (W : Output → Type κ) (o : Output) (os : List Output) → find_if p os ≡ some o → All W os → W o
  unfolding find_if
  find_if-All W o [] e h = absurd (ground arith)
  find_if-All W o (c ∷ os) e h = elim (Bool-cases (p c)) [
    | inl hit ↦ let same : c ≡ o = ground arith in subst W same h.0
    | inr miss ↦ find_if-All W o os (ground arith) h.1
  ]

  pub replace_first-All {κ} :
      (W : Output → Type κ) (o' : Output) (os : List Output)
      → W o'
      → All W os
      → All W (replace_first p o' os)
  unfolding replace_first
  replace_first-All W o' [] w h = tt
  replace_first-All W o' (c ∷ os) w h = elim (Bool-cases (p c)) [
    | inl hit ↦ rw hit (w, h.1)
    | inr miss ↦ rw miss (h.0, replace_first-All W o' os w h.1)
  ]

  pub remove_first-All {κ} :
      (W : Output → Type κ) (os : List Output) → All W os → All W (remove_first p os)
  unfolding remove_first
  remove_first-All W [] h = tt
  remove_first-All W (c ∷ os) h = elim (Bool-cases (p c)) [
    | inl hit ↦ rw hit h.1
    | inr miss ↦ rw miss (h.0, remove_first-All W os h.1)
  ]

  pub replace_first-count :
      (j k : ℕ) (o o' : Output) (os : List Output)
      → find_if p os ≡ some o
      → count_outputs j k (replace_first p o' os) + count j k o.records
        ≡ count_outputs j k os + count j k o'.records
  unfolding find_if replace_first count_outputs
  replace_first-count j k o o' [] e = absurd (ground arith)
  replace_first-count j k o o' (c ∷ os) e = elim (Bool-cases (p c)) [
    | inl hit ↦ let same : c ≡ o = ground arith in rw hit (rw same (omega arith))
    | inr miss ↦ let ih = replace_first-count j k o o' os (ground arith) in rw miss (omega arith)
  ]

  pub remove_first-count :
      (j k : ℕ) (o : Output) (os : List Output)
      → find_if p os ≡ some o
      → count_outputs j k (remove_first p os) + count j k o.records ≡ count_outputs j k os
  unfolding find_if remove_first count_outputs
  remove_first-count j k o [] e = absurd (ground arith)
  remove_first-count j k o (c ∷ os) e = elim (Bool-cases (p c)) [
    | inl hit ↦ let same : c ≡ o = ground arith in rw hit (rw same (omega arith))
    | inr miss ↦ let ih = remove_first-count j k o os (ground arith) in rw miss (omega arith)
  ]

-- An executor that replaces the first of some is found afterwards.
pub replace_first-any :
    (p q : Output → Bool) (o o' : Output) (os : List Output)
    → find_if q os ≡ some o
    → p o' ≡ true
    → any_output p (replace_first q o' os) ≡ true
unfolding find_if replace_first any_output
replace_first-any p q o o' [] e h = absurd (ground arith)
replace_first-any p q o o' (c ∷ os) e h = elim (Bool-cases (q c)) [
  | inl hit ↦ rw hit (rw h refl)
  | inr miss ↦ let rest = replace_first-any p q o o' os (ground arith) h in ground arith
]
