-- ===== src/Scheduler/Timers/Register.antt =====
-- A registration of a timer (lib/simple_scheduler.cpp, process_ioq), read as a change of the time at
-- which each action is to run.
use ioa.Prelude.{
  ℕ, suc, ◌+◌, ◌≡◌, refl, true, false, List, [], ◌∷◌, arith, Option, none, some, if◌then◌else◌,
  length, is_some, Bool-cases, Option-cases, inl, inr, sym, ap, subst, ◌∙◌,
}
use ioa.Outcome.{done}
use ioa.Time.{Time}
use ioa.Time.Exact.{less}
use ioa.Runnable.{ActionRunnable, equivalent}
use ioa.Scheduler.Timers.{
  Timers, find_action, erase_action, erase_forward, erase_timer, same_time, add, register,
  register_all,
}
use ioa.Scheduler.Timers.Order.{
  less_irrefl, equivalent-equal, equivalent_refl, equivalent_sym, equivalent_trans,
}
use ioa.Scheduler.Timers.Agree.{
  Agree, From, IsSorted, first, count, when, count_absent, first_absent, count-same, first-same,
  find-erase, count-place, first-place, place-IsSorted, length-place,
}

-- `l'` is `l` without its one entry of the action.
record Erased (r : ActionRunnable) (l l' : List (Time × ActionRunnable)) : Type 0 where
  counts : (j : ActionRunnable) → count j l ≡ count j l' + (if equivalent r j then 1 else 0)
  firsts : (j : ActionRunnable) → first j l' ≡ (if equivalent r j then none else first j l)
  sorted : IsSorted l → IsSorted l'
  from : (t : Time) → From t l → From t l'
  size : length l ≡ suc (length l')

Erased-cons :
    (u : Time) (r x : ActionRunnable) (l l' : List (Time × ActionRunnable))
    → equivalent x r ≡ false
    → Erased r l l'
    → Erased r ((u, x) ∷ l) ((u, x) ∷ l')
unfolding count first
Erased-cons u r x l l' h e = record {
  counts = λ j. let c = e.counts j in ground arith;
  firsts = λ j.
      let c = e.firsts j in
      let d = equivalent_trans r j x in
      let a = equivalent_sym x r in let b = equivalent_sym j x in ground arith;
  sorted = λ s. (e.from u s.0, e.sorted s.1);
  from = λ t s. (s.0, e.from t s.1);
  size = let c = e.size in omega arith;
}

Erased-head :
    (u : Time) (r x : ActionRunnable) (l : List (Time × ActionRunnable))
    → equivalent x r ≡ true
    → count r l ≡ 0
    → Erased r ((u, x) ∷ l) l
unfolding count first
Erased-head u r x l h absent = record {
  counts = λ j. let c = equivalent_trans x r j h in ground arith;
  firsts = λ j.
      let c = equivalent_trans x r j h in
      let d = first_absent r l absent in let e = first-same j r l in ground arith;
  sorted = λ s. s.1;
  from = λ t s. s.1;
  size = refl;
}

erase_forward_total :
    (r : ActionRunnable) (l : List (Time × ActionRunnable))
    → count r l ≡ 1
    → (l' : List (Time × ActionRunnable)) × (erase_forward r l ≡ some l') × Erased r l l'
unfolding erase_forward count
erase_forward_total r [] h = absurd (ground arith)
erase_forward_total r ((u, x) ∷ l) h = elim (Bool-cases (equivalent x r)) [
  | inl e ↦ (l, let c = equivalent-equal x r in ground arith, Erased-head u r x l e (ground arith))
  | inr e ↦
      let (l', f, s) = erase_forward_total r l (ground arith) in
      ((u, x) ∷ l', let c = equivalent-equal x r in ground arith, Erased-cons u r x l l' e s)
]

-- The search that starts at the entries of the action's time finds its entry.
erase_timer_total :
    (t : Time) (r : ActionRunnable) (l : List (Time × ActionRunnable))
    → count r l ≡ 1
    → first r l ≡ some t
    → (l' : List (Time × ActionRunnable)) × (erase_timer t r l ≡ some l') × Erased r l l'
unfolding erase_timer count first
erase_timer_total t r [] h f = absurd (ground arith)
erase_timer_total t r ((u, x) ∷ l) h f = elim (Bool-cases (same_time u t)) [
  | inl e ↦
      let (l', g, s) = erase_forward_total r ((u, x) ∷ l) (unfold count in h) in (l', rw e g, s)
  | inr e ↦ elim (Bool-cases (equivalent x r)) [
    | inl k ↦
        let c = less_irrefl t in
        let q : u ≡ t = ground arith in
        let a = subst (λ v. less v t ≡ false) (sym q) c in
        let b = subst (λ v. less t v ≡ false) (sym q) c in absurd (ground arith)
    | inr k ↦
        let (l', g, s) = erase_timer_total t r l (ground arith) (ground arith) in
        ((u, x) ∷ l', rw (e, g) refl, Erased-cons u r x l l' k s)
  ]
]

abbrev pub earlier : Time → Option Time → Time
earlier t none = t
earlier t (some u) = if less t u then t else u

-- What a registration of `r` for `t` comes to.
pub record Registered (t : Time) (r : ActionRunnable) (s s' : Timers) (deleted : ℕ) : Type 0 where
  pub agree : Agree s'
  pub times :
      (j : ActionRunnable)
      → when j s' ≡ (if equivalent r j then some (earlier t (when r s)) else when j s)
  pub deletes : deleted ≡ (if is_some (when r s) then 1 else 0)
  pub size : length s'.time_to_action + deleted ≡ suc (length s.time_to_action)

find_action-equivalent :
    (r x : ActionRunnable) (t : Time) (m : List (ActionRunnable × Time))
    → find_action r m ≡ some (x, t)
    → equivalent x r ≡ true
unfolding find_action
find_action-equivalent r x t [] h = absurd (ground arith)
find_action-equivalent r x t ((y, u) ∷ m) h = elim (Bool-cases (equivalent y r)) [
  | inl e ↦ ground arith
  | inr e ↦ find_action-equivalent r x t m (ground arith)
]

module _ (t : Time) (r : ActionRunnable) (s : Timers) (v : Agree s) where
  -- What every branch that inserts comes to, `s0` being what is left of the entries of the action.
  add-Registered :
      (s0 : Timers) (deleted : ℕ)
      → IsSorted s0.time_to_action
      → ((j : ActionRunnable)
          → count j s.time_to_action
            ≡ count j s0.time_to_action + (if equivalent r j then deleted else 0))
      → count r s0.time_to_action ≡ 0
      → ((j : ActionRunnable)
          → first j s0.time_to_action ≡ (if equivalent r j then none else first j s.time_to_action))
      → ((j : ActionRunnable) → when j s0 ≡ (if equivalent r j then none else when j s))
      → length s0.time_to_action + deleted ≡ length s.time_to_action
      → deleted ≡ (if is_some (when r s) then 1 else 0)
      → earlier t (when r s) ≡ t
      → Registered t r s (add t r s0) deleted
  unfolding find_action
  add-Registered s0 deleted sorted counts absent firsts whens size del early = record {
    agree = record {
      sorted = place-IsSorted t r s0.time_to_action sorted;
      once = λ j.
          let c = count-place j r t s0.time_to_action in
          let d = counts j in
          let e = v.once j in
          let g = count-same j r s0.time_to_action in let f = equivalent_sym r j in ground arith;
      agree = λ j.
          let c = first-place j r t s0.time_to_action absent in
          let d = firsts j in let e = whens j in let g = v.agree j in ground arith;
    };
    times = λ j. let e = whens j in ground arith;
    deletes = del;
    size = let c = length-place t r s0.time_to_action in omega arith;
  }

  when-same : (j : ActionRunnable) → equivalent r j ≡ true → when j s ≡ when r s
  when-same j h = v.agree j ∙ sym (first-same j r s.time_to_action h) ∙ sym (v.agree r)

  -- Where the maps agree, a registration returns, so that its search for the entry to erase never
  -- runs off the end. Afterwards the action is to run at the earlier of its two times, and every
  -- other action at its own; a runnable is deleted if the action had one. The maps agree again.
  pub register_total :
      (s' : Timers) × (deleted : ℕ) × (register t r s ≡ done (s', deleted))
      × Registered t r s s' deleted
  unfolding register
  register_total = elim (Option-cases (find_action r s.action_to_time)) [
    | inl absent ↦
        let no : when r s ≡ none = rw absent refl in
        let gone = count_absent r s.time_to_action (let a = v.agree r in ground arith) in
        (
          add t r s,
          0,
          rw absent refl,
          add-Registered s 0 v.sorted (λ j. ground arith) gone
              (λ j. let a = v.agree j in let b = when-same j in ground arith)
              (λ j. let b = when-same j in ground arith) (omega arith) (rw no refl) (rw no refl),
        )
    | inr ((x, u), there) ↦
        let at : when r s ≡ some u = rw there refl in
        elim (Bool-cases (less t u)) [
          | inr late ↦ (
            s,
            1,
            rw (there, late) refl,
            record {
              agree = v;
              times = λ j. let b = when-same j in ground arith;
              deletes = rw at refl;
              size = omega arith;
            },
          )
          | inl early ↦
              let q = find_action-equivalent r x u s.action_to_time there in
              let f = first-same r x s.time_to_action q in
              let c = count-same r x s.time_to_action q in
              let (l, e, g) =
                erase_timer_total u x s.time_to_action
                  (let a = v.agree r in
                    let b = v.once r in let d = first_absent r s.time_to_action in ground arith)
                  (let a = v.agree r in ground arith) in
              let s0 : Timers = record {
                time_to_action = l;
                action_to_time = erase_action x s.action_to_time;
              } in
              (
                add t r s0,
                1,
                rw (there, early, e) refl,
                add-Registered s0 1 (g.sorted v.sorted)
                    (λ j. let d = g.counts j in let k = equivalent_trans x r j q in ground arith)
                    (let d = g.counts r in
                      let k = equivalent_trans x r r q in
                      (let b = equivalent_refl r in let o = v.once r in ground arith))
                    (λ j. let d = g.firsts j in let k = equivalent_trans x r j q in ground arith)
                    (λ j.
                      let d = find-erase j x s.action_to_time in
                      let k = equivalent_trans x r j q in ground arith)
                    (let d = g.size in omega arith) (rw at refl) (rw at (rw early refl)),
              )
        ]
  ]

-- The earliest of a time and those that a queue asks for the action, an earlier request winning over
-- an equal later one.
abbrev pub earliest : ActionRunnable → List (Time × ActionRunnable) → Option Time → Option Time
earliest j [] w = w
earliest j ((t, r) ∷ q) w = earliest j q (if equivalent r j then some (earlier t w) else w)

-- Where the maps agree, the loop over the queue of registrations returns. Afterwards every action is
-- to run at the earliest of its former time and the times that the queue asks for it, and at none if
-- there are none; of the runnables that were there and that came, all that are not deleted are in
-- the multimap, one for an action and in the order of their times. The maps agree again.
pub register_all_total :
    (q : List (Time × ActionRunnable)) (s : Timers)
    → Agree s
    → (s' : Timers) × (deleted : ℕ) × (register_all q s ≡ done (s', deleted))
      × Agree s'
      × ((j : ActionRunnable) → when j s' ≡ earliest j q (when j s))
      × (length s'.time_to_action + deleted ≡ length q + length s.time_to_action)
unfolding register_all
register_all_total [] s v = (s, 0, refl, v, λ j. refl, omega arith)
register_all_total ((t, r) ∷ q) s v =
    let (s1, n, e, g) = register_total t r s v in
    let (s2, k, f, a, w, size) = register_all_total q s1 g.agree in
    (
      s2,
      n + k,
      rw (e, f) refl,
      a,
      λ j. w j ∙ ap (earliest j q) (step j g),
      let z = g.size in omega arith,
    )
  where
    step :
        {s1 : Timers} {n : ℕ} (j : ActionRunnable)
        → Registered t r s s1 n
        → when j s1 ≡ (if equivalent r j then some (earlier t (when j s)) else when j s)
    step j g = elim (Bool-cases (equivalent r j)) [
      | inl h ↦ g.times j ∙ rw (h, when-same t r s v j h) refl
      | inr h ↦ g.times j ∙ rw h refl
    ]
