-- ===== src/Scheduler/Files.antt =====
-- The runnables that wait for a file descriptor, as process_ioq of lib/simple_scheduler.cpp keeps
-- them: a map from the descriptor.
use ioa.Prelude.{
  ℕ, suc, ◌+◌, ◌≤◌, ◌≡◌, refl, Bool, true, List, [], ◌∷◌, arith, Option, none, some, ◌==◌,
  if◌then◌else◌, length, is_some, Bool-cases, inl, inr, subst, Option-cases, ◌∙◌,
}
use ioa.FinMap.{lookup, insert, place, erase, lookup-insert, insert_absent, count_keys}
use ioa.Runnable.{ActionRunnable}

abbrev pub one : Bool → ℕ
one b = if b then 1 else 0

-- One registration of m_readq or of m_writeq: the first runnable of a descriptor stays. The number is
-- how many runnables are deleted.
unfoldable pub register_one :
    ℕ → ActionRunnable → List (ℕ × ActionRunnable) → List (ℕ × ActionRunnable) × ℕ
unfolding lookup
register_one fd r m = if is_some (lookup fd m) then (m, 1) else (insert fd r m, 0)

unfoldable pub register :
    List (ℕ × ActionRunnable) → List (ℕ × ActionRunnable) → List (ℕ × ActionRunnable) × ℕ
unfolding register_one
register [] m = (m, 0)
register ((fd, r) ∷ q) m =
    let (m1, n) = register_one fd r m in let (m2, k) = register q m1 in (m2, n + k)

-- The loop over the map: the runnables whose descriptor is ready, and those that stay.
unfoldable pub take_ready :
    (ℕ → Bool) → List (ℕ × ActionRunnable) → List ActionRunnable × List (ℕ × ActionRunnable)
take_ready ready [] = ([], [])
take_ready ready ((fd, r) ∷ m) =
    let (xs, rest) = take_ready ready m in if ready fd then (r ∷ xs, rest) else (xs, (fd, r) ∷ rest)

-- No descriptor stands twice.
abbrev pub Once : List (ℕ × ActionRunnable) → Type 0
Once m = (k : ℕ) → count_keys (λ j. j == k) m ≤ 1

count_absent :
    (k : ℕ) (m : List (ℕ × ActionRunnable)) → lookup k m ≡ none → count_keys (λ j. j == k) m ≡ 0
unfolding lookup count_keys
count_absent k [] h = refl
count_absent k ((j, r) ∷ m) h = ground (arith, count_absent k m)

count-place :
    (k fd : ℕ) (r : ActionRunnable) (m : List (ℕ × ActionRunnable))
    → count_keys (λ j. j == k) (place fd r m) ≡ one (fd == k) + count_keys (λ j. j == k) m
unfolding place count_keys
count-place k fd r [] = refl
count-place k fd r ((j, x) ∷ m) = ground (arith, count-place k fd r m)

length-place :
    (fd : ℕ) (r : ActionRunnable) (m : List (ℕ × ActionRunnable))
    → length (place fd r m) ≡ suc (length m)
unfolding place
length-place fd r [] = refl
length-place fd r ((j, x) ∷ m) = ground (arith, length-place fd r m)

pub length-insert :
    (fd : ℕ) (r : ActionRunnable) (m : List (ℕ × ActionRunnable))
    → lookup fd m ≡ none
    → length (insert fd r m) ≡ suc (length m)
length-insert fd r m h = rw (insert_absent fd r m h) (length-place fd r m)

pub insert-Once :
    (fd : ℕ) (r : ActionRunnable) (m : List (ℕ × ActionRunnable))
    → lookup fd m ≡ none
    → Once m
    → Once (insert fd r m)
insert-Once fd r m h o k =
    let c = count-place k fd r m in
    let e = o k in
    rw (insert_absent fd r m h) elim (Bool-cases (fd == k)) [
      | inl s ↦
          let q : fd ≡ k = ground arith in
          let d = count_absent k m (subst (λ z. lookup z m ≡ none) q h) in ground arith
      | inr s ↦ ground arith
    ]

abbrev or_else : Option ActionRunnable → Option ActionRunnable → Option ActionRunnable
or_else none b = b
or_else (some a) b = some a

-- What the loop over a queue comes to: each descriptor keeps the runnable that waits for it, or else
-- gets the first of the queue, and the others are deleted.
pub record Registered (q m m' : List (ℕ × ActionRunnable)) (deleted : ℕ) : Type 0 where
  pub once : Once m'
  pub size : length m' + deleted ≡ length q + length m
  pub waits : (fd : ℕ) → lookup fd m' ≡ or_else (lookup fd m) (lookup fd q)

-- One registration: `m1` is the map after it.
record Adds (fd : ℕ) (r : ActionRunnable) (m m1 : List (ℕ × ActionRunnable)) (deleted : ℕ)
    : Type 0 where
  once : Once m1
  size : length m1 + deleted ≡ suc (length m)
  waits : (j : ℕ) → lookup j m1 ≡ or_else (lookup j m) (if j == fd then some r else none)

register_one-Adds :
    (fd : ℕ) (r : ActionRunnable) (m : List (ℕ × ActionRunnable))
    → Once m
    → Adds fd r m (register_one fd r m).0 (register_one fd r m).1
unfolding register_one
register_one-Adds fd r m o = elim (Option-cases (lookup fd m)) [
  | inr (a, e) ↦ rw e (record { once = o; size = omega arith; waits = λ j. here j a e })
  | inl e ↦ rw e (record {
    once = insert-Once fd r m e o;
    size = let l = length-insert fd r m e in omega arith;
    waits = λ j. lookup-insert j fd r m e ∙ new j e;
  })
]
  where
    here :
        (j : ℕ) (a : ActionRunnable)
        → lookup fd m ≡ some a
        → lookup j m ≡ or_else (lookup j m) (if j == fd then some r else none)
    here j a e = ground arith

    new :
        (j : ℕ)
        → lookup fd m ≡ none
        → (if j == fd then some r else lookup j m)
          ≡ or_else (lookup j m) (if j == fd then some r else none)
    new j e = ground arith

pub register-Registered :
    (q m : List (ℕ × ActionRunnable)) → Once m → Registered q m (register q m).0 (register q m).1
unfolding register lookup
register-Registered [] m o = record {
  once = o;
  size = omega arith;
  waits = λ fd. elim (Option-cases (lookup fd m)) [ inl e ↦ rw e refl | inr (a, e) ↦ rw e refl ];
}
register-Registered ((fd, r) ∷ q) m o =
    let a = register_one-Adds fd r m o in
    let g = register-Registered q (register_one fd r m).0 a.once in
    record {
      once = g.once;
      size = let z = g.size in let y = a.size in omega arith;
      waits = λ j. let w = g.waits j in let y = a.waits j in ground arith;
    }

count_present :
    (k : ℕ) (m : List (ℕ × ActionRunnable))
    → is_some (lookup k m) ≡ true
    → 1 ≤ count_keys (λ j. j == k) m
unfolding lookup count_keys
count_present k [] h = absurd (ground arith)
count_present k ((j, r) ∷ m) h = ground (arith, count_present k m)

length-erase :
    (fd : ℕ) (m : List (ℕ × ActionRunnable))
    → length (erase fd m) + count_keys (λ j. j == fd) m ≡ length m
unfolding erase count_keys
length-erase fd [] = refl
length-erase fd ((j, r) ∷ m) = ground (arith, length-erase fd m)

count-erase :
    (k fd : ℕ) (m : List (ℕ × ActionRunnable))
    → count_keys (λ j. j == k) (erase fd m) ≤ count_keys (λ j. j == k) m
unfolding erase count_keys
count-erase k fd [] = omega arith
count-erase k fd ((j, r) ∷ m) = ground (arith, count-erase k fd m)

pub erase-Once : (fd : ℕ) (m : List (ℕ × ActionRunnable)) → Once m → Once (erase fd m)
erase-Once fd m o k = let c = count-erase k fd m in let d = o k in omega arith

pub length-erase-Once :
    (fd : ℕ) (m : List (ℕ × ActionRunnable))
    → Once m
    → length (erase fd m) + one (is_some (lookup fd m)) ≡ length m
length-erase-Once fd m o =
    let a = length-erase fd m in
    let b = count_present fd m in
    let c = count_absent fd m in
    let d = o fd in
    elim (Option-cases (lookup fd m)) [ inl e ↦ ground arith | inr (x, e) ↦ ground arith ]

-- What the loop over the map comes to: the runnables whose descriptor is ready go, all others stay.
pub record Takes (ready : ℕ → Bool) (m rest : List (ℕ × ActionRunnable)) (xs : List ActionRunnable)
    : Type 0 where
  pub once : Once m → Once rest
  pub size : length xs + length rest ≡ length m
  pub waits : (fd : ℕ) → lookup fd rest ≡ (if ready fd then none else lookup fd m)
  pub counts : (k : ℕ) → count_keys (λ j. j == k) rest ≤ count_keys (λ j. j == k) m

pub take_ready-Takes :
    (ready : ℕ → Bool) (m : List (ℕ × ActionRunnable))
    → Takes ready m (take_ready ready m).1 (take_ready ready m).0
unfolding take_ready lookup count_keys
take_ready-Takes ready [] = record {
  once = λ o. o;
  size = refl;
  waits = λ fd. ground arith;
  counts = λ k. omega arith;
}
take_ready-Takes ready ((fd, r) ∷ m) =
    let g = take_ready-Takes ready m in
    record {
      once = λ o k. let c = g.counts k in let d = o k in ground arith;
      size = let z = g.size in ground arith;
      waits = λ j. let w = g.waits j in ground arith;
      counts = λ k. let c = g.counts k in ground arith;
    }
