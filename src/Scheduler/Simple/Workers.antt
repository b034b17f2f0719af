-- ===== src/Scheduler/Simple/Workers.antt =====
-- Sums over the threads of the execution queues (lib/simple_scheduler.cpp).
use ioa.Prelude.{
  ℕ, suc, ◌+◌, ◌-◌, ◌%◌, ◌<◌, ◌≡◌, refl, List, [], ◌∷◌, ◌++◌, map, Option, none, some, ◌==◌,
  if◌then◌else◌, length, arith, Bool-cases, inl, inr, subst, ap,
}
use ioa.Runnable.{ActionRunnable, get_action}
use ioa.Scheduler.Simple.{Pc, testing, popping, running, stopped, Worker, nth, update_at}

-- A measure of a thread may depend on its index.
abbrev pub sum : (ℕ → Worker → ℕ) → ℕ → List Worker → ℕ
sum μ k [] = 0
sum μ k (w ∷ ws) = μ k w + sum μ (k + 1) ws

pub sum-update_at :
    (μ : ℕ → Worker → ℕ) (i k : ℕ) (f : Worker → Worker) (w : Worker) (ws : List Worker)
    → nth i ws ≡ some w
    → sum μ k (update_at i f ws) + μ (k + i) w ≡ sum μ k ws + μ (k + i) (f w)
unfolding nth update_at
sum-update_at μ i k f w [] h = absurd (ground arith)
sum-update_at μ i k f w (v ∷ ws) h = elim (Bool-cases (i == 0)) [
  | inl e ↦
      let q : k + i ≡ k = ground arith in
      let same : v ≡ w = ground arith in rw (e, q, same) omega arith
  | inr e ↦
      let rest = sum-update_at μ (i - 1) (k + 1) f w ws (ground arith) in
      let q : k + 1 + (i - 1) ≡ k + i = ground arith in
      let moved =
        subst (λ z. sum μ (k + 1) (update_at (i - 1) f ws) + μ z w ≡ sum μ (k + 1) ws + μ z (f w)) q
          rest in
      rw e omega arith
]

pub length-update_at :
    (i : ℕ) (f : Worker → Worker) (ws : List Worker) → length (update_at i f ws) ≡ length ws
unfolding update_at
length-update_at i f [] = refl
length-update_at i f (w ∷ ws) = ground (arith, length-update_at (i - 1) f ws)

pub sum-map :
    (μ ν : ℕ → Worker → ℕ) (f : Worker → Worker) (k : ℕ) (ws : List Worker)
    → ((j : ℕ) (w : Worker) → μ j (f w) ≡ ν j w)
    → sum μ k (map f ws) ≡ sum ν k ws
sum-map μ ν f k [] h = refl
sum-map μ ν f k (w ∷ ws) h = let a = h k w in let b = sum-map μ ν f (k + 1) ws h in omega arith

pub sum_zero :
    (μ : ℕ → Worker → ℕ) (k : ℕ) (ws : List Worker)
    → ((j : ℕ) (w : Worker) → μ j w ≡ 0)
    → sum μ k ws ≡ 0
sum_zero μ k [] h = refl
sum_zero μ k (w ∷ ws) h = let a = h k w in let b = sum_zero μ (k + 1) ws h in omega arith

pub length-map : (f : Worker → Worker) (ws : List Worker) → length (map f ws) ≡ length ws
length-map f [] = refl
length-map f (w ∷ ws) = ap suc (length-map f ws)

pub nth-map :
    (i : ℕ) (f : Worker → Worker) (w : Worker) (ws : List Worker)
    → nth i ws ≡ some w
    → nth i (map f ws) ≡ some (f w)
unfolding nth
nth-map i f w [] h = absurd (ground arith)
nth-map i f w (v ∷ ws) h = ground (arith, nth-map (i - 1) f w ws)

pub nth_below : (i : ℕ) (ws : List Worker) → i < length ws → (w : Worker) × (nth i ws ≡ some w)
unfolding nth
nth_below i [] h = absurd (omega arith)
nth_below i (v ∷ ws) h = elim (Bool-cases (i == 0)) [
  | inl e ↦ (v, rw e refl)
  | inr e ↦ let (w, f) = nth_below (i - 1) ws (ground arith) in (w, rw e f)
]

-- The runnables of a queue, without sentinels.
abbrev pub reals {ℓ} : {A : Type ℓ} → List (Option A) → ℕ
reals [] = 0
reals (none ∷ q) = reals q
reals (some r ∷ q) = suc (reals q)

abbrev pub real {ℓ} : {A : Type ℓ} → Option A → ℕ
real none = 0
real (some r) = 1

pub reals-snoc {ℓ} :
    {A : Type ℓ} (x : Option A) (q : List (Option A)) → reals (q ++ x ∷ []) ≡ reals q + real x
reals-snoc none [] = refl
reals-snoc (some r) [] = refl
reals-snoc x (none ∷ q) = reals-snoc x q
reals-snoc x (some r ∷ q) = omega (arith, reals-snoc x q)

-- The runnables of a queue that belong to another thread than the one of the index.
abbrev pub strays_in : (threads index : ℕ) → List (Option ActionRunnable) → ℕ
strays_in n k [] = 0
strays_in n k (none ∷ q) = strays_in n k q
strays_in n k (some r ∷ q) = (if (get_action r).aid % n == k then 0 else 1) + strays_in n k q

pub strays-snoc :
    (n k : ℕ) (r : ActionRunnable) (q : List (Option ActionRunnable))
    → (get_action r).aid % n ≡ k
    → strays_in n k (q ++ some r ∷ []) ≡ strays_in n k q
strays-snoc n k r [] h = ground arith
strays-snoc n k r (none ∷ q) h = strays-snoc n k r q h
strays-snoc n k r (some x ∷ q) h = omega (arith, strays-snoc n k r q h)

pub strays-sentinel :
    (n k : ℕ) (q : List (Option ActionRunnable)) → strays_in n k (q ++ none ∷ []) ≡ strays_in n k q
strays-sentinel n k [] = refl
strays-sentinel n k (none ∷ q) = strays-sentinel n k q
strays-sentinel n k (some x ∷ q) = omega (arith, strays-sentinel n k q)

abbrev pub runs : Pc → ℕ
runs running = 1
runs _ = 0

abbrev pub ends : Pc → ℕ
ends stopped = 1
ends _ = 0

-- A thread that waits at pop for an empty queue.
abbrev pub blocks {ℓ} : {A : Type ℓ} → Pc → List A → ℕ
blocks popping [] = 1
blocks popping (x ∷ q) = 0
blocks _ q = 0

pub blocks-snoc {ℓ} : {A : Type ℓ} (pc : Pc) (x : A) (q : List A) → blocks pc (q ++ x ∷ []) ≡ 0
blocks-snoc testing x q = refl
blocks-snoc running x q = refl
blocks-snoc stopped x q = refl
blocks-snoc popping x [] = refl
blocks-snoc popping x (y ∷ q) = refl
