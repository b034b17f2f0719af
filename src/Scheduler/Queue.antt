-- ===== src/Scheduler/Queue.antt =====
-- A queue of runnables without two of one action: schedule_userq of lib/global_fifo_scheduler.cpp.
use ioa.Prelude.{
  ℕ, suc, ◌+◌, ◌≡◌, refl, Bool, false, ◌||◌, List, [], ◌∷◌, ◌++◌, arith, if◌then◌else◌, length,
  Bool-cases, inl, inr, ap, ◌∙◌, sym,
}
use ioa.Runnable.{ActionRunnable, equal}
use ioa.Scheduler.Timers.Order.{equivalent-equal, equivalent_sym}

-- std::find_if with action_runnable_equal.
unfoldable pub present : ActionRunnable → List ActionRunnable → Bool
unfolding equal
present r [] = false
present r (x ∷ q) = equal r x || present r q

-- The queue, and how many runnables are deleted.
unfoldable pub enqueue : ActionRunnable → List ActionRunnable → List ActionRunnable × ℕ
unfolding present
enqueue r q = if present r q then (q, 1) else (q ++ r ∷ [], 0)

unfoldable pub enqueue_all : List ActionRunnable → List ActionRunnable → List ActionRunnable × ℕ
unfolding enqueue
enqueue_all [] q = (q, 0)
enqueue_all (r ∷ rs) q = let (q1, n) = enqueue r q in let (q2, k) = enqueue_all rs q1 in (q2, n + k)

abbrev pub IsDistinct : List ActionRunnable → Type 0
IsDistinct [] = Unit
IsDistinct (x ∷ q) = (present x q ≡ false) × IsDistinct q

equal_sym : (a b : ActionRunnable) → equal a b ≡ equal b a
equal_sym a b = sym (equivalent-equal a b) ∙ equivalent_sym a b ∙ equivalent-equal b a

present-append :
    (x r : ActionRunnable) (q : List ActionRunnable)
    → present x (q ++ r ∷ []) ≡ (present x q || equal x r)
unfolding present
present-append x r [] = ground arith
present-append x r (y ∷ q) = ground (arith, present-append x r q)

append-IsDistinct :
    (r : ActionRunnable) (q : List ActionRunnable)
    → present r q ≡ false
    → IsDistinct q
    → IsDistinct (q ++ r ∷ [])
unfolding present
append-IsDistinct r [] h d = (refl, tt)
append-IsDistinct r (x ∷ q) h d = (
  let a = present-append x r q in let b = equal_sym x r in let e = d.0 in ground arith,
  append-IsDistinct r q (ground arith) d.1,
)

module _ {ℓ} {A : Type ℓ} where
  -- What insertions at the end come to: `q` stays in front.
  pub record Extends (q q' : List A) : Type ℓ where
    pub added : List A
    pub split : q' ≡ q ++ added

  pub append_nil : (q : List A) → q ≡ q ++ []
  append_nil [] = refl
  append_nil (x ∷ q) = ap (λ z. x ∷ z) (append_nil q)

  pub append_assoc : (a b c : List A) → (a ++ b) ++ c ≡ a ++ (b ++ c)
  append_assoc [] b c = refl
  append_assoc (x ∷ a) b c = ap (λ z. x ∷ z) (append_assoc a b c)

  pub Extends-refl : (q : List A) → Extends q q
  Extends-refl q = record { added = []; split = append_nil q }

  pub Extends-snoc : (q : List A) (r : A) → Extends q (q ++ r ∷ [])
  Extends-snoc q r = record { added = r ∷ []; split = refl }

  pub Extends-trans : (a b c : List A) → Extends a b → Extends b c → Extends a c
  Extends-trans a b c x y = record {
    added = x.added ++ y.added;
    split = y.split ∙ ap (λ z. z ++ y.added) x.split ∙ append_assoc a x.added y.added;
  }

  pub length-snoc : (r : A) (q : List A) → length (q ++ r ∷ []) ≡ suc (length q)
  length-snoc r [] = refl
  length-snoc r (x ∷ q) = ap suc (length-snoc r q)

pub record Queues (n : ℕ) (q q' : List ActionRunnable) (deleted : ℕ) : Type 0 where
  pub extends : Extends q q'
  pub distinct : IsDistinct q → IsDistinct q'
  pub size : length q' + deleted ≡ n + length q

pub enqueue-Queues :
    (r : ActionRunnable) (q : List ActionRunnable) → Queues 1 q (enqueue r q).0 (enqueue r q).1
unfolding enqueue
enqueue-Queues r q = elim (Bool-cases (present r q)) [
  | inl e ↦ rw e (record { extends = Extends-refl q; distinct = λ d. d; size = omega arith })
  | inr e ↦ rw e (record {
    extends = Extends-snoc q r;
    distinct = append-IsDistinct r q e;
    size = let l = length-snoc r q in omega arith;
  })
]

pub enqueue_all-Queues :
    (rs q : List ActionRunnable) → Queues (length rs) q (enqueue_all rs q).0 (enqueue_all rs q).1
unfolding enqueue_all
enqueue_all-Queues [] q = record { extends = Extends-refl q; distinct = λ d. d; size = omega arith }
enqueue_all-Queues (r ∷ rs) q =
    let a = enqueue-Queues r q in
    let b = enqueue_all-Queues rs (enqueue r q).0 in
    record {
      extends = Extends-trans q _ _ a.extends b.extends;
      distinct = λ d. b.distinct (a.distinct d);
      size = let x = a.size in let y = b.size in omega arith;
    }
