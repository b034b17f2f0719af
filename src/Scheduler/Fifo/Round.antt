-- ===== src/Scheduler/Fifo/Round.antt =====
-- Whole rounds of the loop (`run` of lib/global_fifo_scheduler.cpp).
use ioa.Prelude.{
  ℕ, suc, ◌-◌, ◌≡◌, refl, false, List, [], ◌∷◌, ◌++◌, arith, Option, length, Bool-cases, inl, inr,
  ap, ◌∙◌, subst, ◌==◌, All, suc,
}
use ioa.Outcome.{done, ◌>>=◌, >>=-eq-done}
use ioa.FinMap.{count_keys}
use ioa.Scheduler.Timers
use ioa.Scheduler.Timers.Agree.{init-Agree}
use ioa.Runnable.{ActionRunnable, Runnable, run, run_action}
use ioa.Scheduler.Queue.{IsDistinct, Extends, Extends-refl, Extends-trans, append_assoc}
use ioa.Scheduler.Calls.{Selects, Env}
use ioa.Scheduler.Fifo.{Fifo, init, call_all, tell_all, take_steps}
use ioa.AutomatonRecord.{Instance}
use ioa.Model.{create_root}
use ioa.Scheduler.Fifo.Loop.{finish, start, run_config, run_user, round, rounds}
use ioa.Scheduler.Fifo.Counts.{
  Inv, Grows, Grows-trans, call_all-Grows, tell_all-Grows, take_steps-Grows,
}
use ioa.Scheduler.Fifo.Poll.{poll_total}

finish-Inv :
    (env : Env) (a s s' : Fifo) (running : ℕ)
    → Grows a s
    → finish env s ≡ done s'
    → Inv (suc running) a
    → Inv running s' × Extends a.configq s'.configq × Extends a.userq s'.userq
finish-Inv env a s s' running g e v =
    let (s1, f, h) = >>=-eq-done (call_all env.now env.on_destruct s) _ e in
    let k = Grows-trans a s s1 g (call_all-Grows env.now env.on_destruct s s1 f) in
    let w = k.inv v in
    let same : ◌≡◌ {A = Fifo} (record s1 { count = s1.count - 1 }) s' = ground arith in
    subst (λ z. Inv running z × Extends a.configq z.configq × Extends a.userq z.userq) same
      (
        record {
          agree = w.agree;
          reads = w.reads;
          writes = w.writes;
          distinct = w.distinct;
          counted = let c = w.counted in omega arith;
        },
        k.configs,
        k.users,
      )

-- A queue whose first member, if any, has been taken.
abbrev pub Pops {ℓ} : {A : Type ℓ} → List A → List A → Type ℓ
Pops [] u = Extends [] u
Pops (r ∷ q) u = Extends q u

Pops-Extends {ℓ} : {A : Type ℓ} (c u u' : List A) → Pops c u → Extends u u' → Pops c u'
Pops-Extends [] u u' p x = Extends-trans [] u u' p x
Pops-Extends (r ∷ q) u u' p x = Extends-trans q u u' p x

Extends-Pops {ℓ} : {A : Type ℓ} (c c1 u : List A) → Extends c c1 → Pops c1 u → Pops c u
Extends-Pops [] c1 u x p = record { added = u; split = refl }
Extends-Pops (r ∷ q) c1 u x p =
    Extends-trans q (q ++ x.added) u (record { added = x.added; split = refl })
      (subst (λ z. Pops z u) x.split p)

run_config-Inv :
    (env : Env) (s s' : Fifo) (c : List Runnable)
    → s.configq ≡ c
    → Inv 0 s
    → run_config env s c ≡ done s'
    → Inv 0 s' × Pops c s'.configq × Extends s.userq s'.userq
unfolding run_config
run_config-Inv env s s' [] h v e =
    subst (λ z. Inv 0 z × Extends [] z.configq × Extends s.userq z.userq) (ground arith)
      (v, record { added = s.configq; split = refl }, Extends-refl s.userq)
run_config-Inv env s s' (r ∷ q) h v e =
    let ((steps, m), f, e1) = >>=-eq-done (run env.user s.model r) _ e in
    let a : Fifo = record s { configq = q; model = record m { log = [] } } in
    let (s1, g, e2) = >>=-eq-done (take_steps env steps a) _ e1 in
    let (s2, k, e3) = >>=-eq-done (tell_all env m.log s1) _ e2 in
    finish-Inv env a s2 s' 0
      (Grows-trans a s1 s2 (take_steps-Grows env steps a s1 g) (tell_all-Grows env m.log s1 s2 k))
      e3
      (record {
        agree = v.agree;
        reads = v.reads;
        writes = v.writes;
        distinct = v.distinct;
        counted = let n = v.counted in let l = ap length h in omega arith;
      })

run_user-Inv :
    (env : Env) (s s' : Fifo) (c : List ActionRunnable)
    → s.userq ≡ c
    → Inv 0 s
    → run_user env s c ≡ done s'
    → Inv 0 s' × Extends s.configq s'.configq × Pops c s'.userq
unfolding run_user
run_user-Inv env s s' [] h v e =
    subst (λ z. Inv 0 z × Extends s.configq z.configq × Extends [] z.userq) (ground arith)
      (v, Extends-refl s.configq, record { added = s.userq; split = refl })
run_user-Inv env s s' (r ∷ q) h v e =
    let a : Fifo = record s { userq = q } in
    let (s1, g, e1) = >>=-eq-done (take_steps env (run_action env.user s.model r).1 a) _ e in
    finish-Inv env a s1 s' 0 (take_steps-Grows env (run_action env.user s.model r).1 a s1 g) e1
      (record {
        agree = v.agree;
        reads = v.reads;
        writes = v.writes;
        distinct = (subst IsDistinct h v.distinct).1;
        counted = let n = v.counted in let l = ap length h in omega arith;
      })

-- What a round comes to.
pub record Rounds (s s' : Fifo) : Type 0 where
  pub inv : Inv 0 s'
  pub configs : Pops s.configq s'.configq
  pub users : Pops s.userq s'.userq

pub round-Rounds :
    (env : Env) (s s' : Fifo) → Selects env → Inv 0 s → round env s ≡ done s' → Rounds s s'
unfolding round
round-Rounds env s s' selects v e =
    let (s0, s1, f, p) = poll_total 0 s v env selects in
    let back : (do s2 ← run_config env s1 s1.configq; run_user env s2 s2.userq) ≡ done s' =
      rw f at e in
    let (s2, g, h) = >>=-eq-done (run_config env s1 s1.configq) _ back in
    let (v2, c2, u2) = run_config-Inv env s1 s2 s1.configq refl p.inv g in
    let (v3, c3, u3) = run_user-Inv env s2 s' s2.userq refl v2 h in
    record {
      inv = v3;
      configs =
          Extends-Pops s.configq s1.configq s'.configq p.configs
            (Pops-Extends s1.configq s2.configq s'.configq c2 c3);
      users =
          Extends-Pops s.userq s2.userq s'.userq
            (Extends-trans s.userq s1.userq s2.userq p.users u2) u3;
    }

pub init-Inv : Inv 0 init
unfolding init Timers.init count_keys
init-Inv = record {
  agree = init-Agree;
  reads = λ k. omega arith;
  writes = λ k. omega arith;
  distinct = tt;
  counted = omega arith;
}

rounds-Inv :
    (envs : List Env) (s s' : Fifo)
    → All Selects envs
    → Inv 0 s
    → rounds envs s ≡ done s'
    → Inv 0 s'
unfolding rounds
rounds-Inv [] s s' sel v e = subst (Inv 0) (ground arith) v
rounds-Inv (env ∷ envs) s s' sel v e = elim (Bool-cases (s.count == 0)) [
  | inl h ↦ subst (Inv 0) (ground arith) v
  | inr h ↦
      let go : (do s1 ← round env s; rounds envs s1) ≡ done s' = rw h at e in
      let (s1, f, g) = >>=-eq-done (round env s) _ go in
      rounds-Inv envs s1 s' sel.1 (round-Rounds env s s1 sel.0 v f).inv g
]

start-Inv :
    (env : Env) (allocator : Option Instance) (s : Fifo) → start env allocator ≡ done s → Inv 0 s
unfolding start
start-Inv env allocator s e =
    let ((aid, m), f, g) = >>=-eq-done (create_root init.model allocator) _ e in
    (tell_all-Grows env m.log (record init { model = record m { log = [] } }) s g).inv (record {
      agree = init-Inv.agree;
      reads = init-Inv.reads;
      writes = init-Inv.writes;
      distinct = init-Inv.distinct;
      counted = init-Inv.counted;
    })

-- From the start of a run on, over any rounds that end without a fault and in which ::select does not
-- fail: the number of runnables in existence, which the loop tests, is that of the runnables that wait
-- in the queues, for a timer or for a descriptor, so that the loop ends exactly when none waits. No two
-- runnables of the user queue are of one action, no two wait for reading or for writing on one
-- descriptor, and the two maps of the timers agree.
pub start-rounds-Inv :
    (env : Env) (allocator : Option Instance) (envs : List Env) (s s' : Fifo)
    → start env allocator ≡ done s
    → All Selects envs
    → rounds envs s ≡ done s'
    → Inv 0 s'
start-rounds-Inv env allocator envs s s' b sel e =
    rounds-Inv envs s s' sel (start-Inv env allocator s b) e

counted_ne :
    (s : Fifo) (r : ActionRunnable) (q : List ActionRunnable)
    → Inv 0 s
    → s.userq ≡ r ∷ q
    → (s.count == 0) ≡ false
counted_ne s r q v h = let c = v.counted in let l = ap length h in ground arith

front_split :
    (pre post added : List ActionRunnable) (r : ActionRunnable) {u : List ActionRunnable}
    → u ≡ (pre ++ r ∷ post) ++ added
    → u ≡ pre ++ r ∷ (post ++ added)
front_split pre post added r h = h ∙ append_assoc pre (r ∷ post) added

-- Where every runnable in existence waits in one place, a runnable of the user queue is overtaken by
-- none: after as many rounds as there are runnables before it, if they end without a fault and ::select
-- does not fail in them, it is the first of the queue, with all that stood behind it behind it, in
-- order, and any new ones at the end.
pub rounds-front :
    (envs : List Env) (pre post : List ActionRunnable) (r : ActionRunnable) (s s' : Fifo)
    → length envs ≡ length pre
    → All Selects envs
    → Inv 0 s
    → s.userq ≡ pre ++ r ∷ post
    → rounds envs s ≡ done s'
    → Extends (r ∷ post) s'.userq
unfolding rounds
rounds-front [] [] post r s s' n sel v h e =
    let same : s ≡ s' = ground arith in
    subst (λ z. Extends (r ∷ post) z.userq) same (rw h (Extends-refl (r ∷ post)))
rounds-front [] (x ∷ pre) post r s s' n sel v h e = absurd (ground arith)
rounds-front (env ∷ envs) [] post r s s' n sel v h e = absurd (ground arith)
rounds-front (env ∷ envs) (x ∷ pre) post r s s' n sel v h e =
    let busy = counted_ne s x (pre ++ r ∷ post) v h in
    let go : (do s1 ← round env s; rounds envs s1) ≡ done s' = rw busy at e in
    let (s1, f, g) = >>=-eq-done (round env s) _ go in
    let k = round-Rounds env s s1 sel.0 v f in
    let p = subst (λ z. Pops z s1.userq) h k.users in
    let u = front_split pre post p.added r p.split in
    let t = rounds-front envs pre (post ++ p.added) r s1 s' (omega arith) sel.1 k.inv u g in
    Extends-trans (r ∷ post) (r ∷ (post ++ p.added)) s'.userq
      (record { added = p.added; split = refl }) t
