-- ===== src/Scheduler/Fifo/Counts.antt =====
-- The number of runnables in existence (lib/runnable_interface.cpp) and the queues and maps of the
-- scheduler that they stand in.
use ioa.Prelude.{ℕ, ◌+◌, ◌≡◌, refl, List, [], ◌∷◌, arith, length, ◌==◌, Bool-cases, inl, inr, subst}
use ioa.Outcome.{Outcome, done, >>=-eq-done}
use ioa.Time.{Time}
use ioa.Time
use ioa.Event.{
  is_set, Event, set_current_aid, clear_current_aid, create, bind, unbind, destroy, no_aid, created,
  bound_to, unbound_from, destroyed, output_bound, input_bound, output_unbound, input_unbound,
}
use ioa.Executor.Run.{Step}
use ioa.Executor.Run
use ioa.Runnable.{ActionRunnable, Runnable, output_exec_runnable}
use ioa.Scheduler.Timers.Agree.{Agree}
use ioa.Scheduler.Files.{Once}
use ioa.Scheduler.Queue.{
  IsDistinct, Extends, Extends-refl, Extends-snoc, Extends-trans, length-snoc, enqueue-Queues,
}
use ioa.Scheduler.Calls.{
  Call, schedule_sys, schedule, schedule_after, schedule_read_ready, schedule_write_ready, close,
  sys_runnable, Env,
}
use ioa.Scheduler.Fifo.{
  Fifo, schedule_configq, schedule_userq, make, get_current_aid, set_current, clear_current, call,
  call_all, tell, tell_all, take_step, take_steps,
}

-- The runnables that wait.
abbrev pub pending : Fifo → ℕ
pending s =
    length s.configq
    + length s.userq
    + length s.timerq
    + length s.readq
    + length s.writeq
    + length s.timers.time_to_action
    + length s.read_actions
    + length s.write_actions

-- Every runnable in existence waits in one place, but for those that are running; no two of the user
-- queue have one action; the maps are in order.
pub record Inv (running : ℕ) (s : Fifo) : Type 0 where
  pub agree : Agree s.timers
  pub reads : Once s.read_actions
  pub writes : Once s.write_actions
  pub distinct : IsDistinct s.userq
  pub counted : s.count ≡ running + pending s

-- What a call comes to: the invariant is kept and the two queues of runnables only grow at the end.
pub record Grows (s s' : Fifo) : Type 0 where
  pub inv : {running : ℕ} → Inv running s → Inv running s'
  pub configs : Extends s.configq s'.configq
  pub users : Extends s.userq s'.userq

pub Grows-refl : (s : Fifo) → Grows s s
Grows-refl s = record {
  inv = λ v. v;
  configs = Extends-refl s.configq;
  users = Extends-refl s.userq;
}

pub Grows-trans : (a b c : Fifo) → Grows a b → Grows b c → Grows a c
Grows-trans a b c x y = record {
  inv = λ v. y.inv (x.inv v);
  configs = Extends-trans a.configq b.configq c.configq x.configs y.configs;
  users = Extends-trans a.userq b.userq c.userq x.users y.users;
}

schedule_configq-Grows : (r : Runnable) (s : Fifo) → Grows s (schedule_configq r s)
unfolding schedule_configq
schedule_configq-Grows r s = record {
  inv = λ v. record {
    agree = v.agree;
    reads = v.reads;
    writes = v.writes;
    distinct = v.distinct;
    counted = let c = v.counted in let l = length-snoc r s.configq in omega arith;
  };
  configs = Extends-snoc s.configq r;
  users = Extends-refl s.userq;
}

schedule_userq-Grows : (r : ActionRunnable) (s : Fifo) → Grows s (schedule_userq r (make s))
unfolding schedule_userq
schedule_userq-Grows r s =
    let q = enqueue-Queues r s.userq in
    record {
      inv = λ v. record {
        agree = v.agree;
        reads = v.reads;
        writes = v.writes;
        distinct = q.distinct v.distinct;
        counted = let c = v.counted in let l = q.size in omega arith;
      };
      configs = Extends-refl s.configq;
      users = q.extends;
    }

abbrev Done : Outcome Fifo → Fifo → Type 0
Done o s' = o ≡ done s'

done-Grows : {s a s' : Fifo} → Grows s a → ◌≡◌ {A = Outcome Fifo} (done a) (done s') → Grows s s'
done-Grows {s} g e = subst (Grows s) (ground arith) g

-- What leaves the queues, the maps and the number as they are.
same-Grows :
    (s s' : Fifo)
    → s'.configq ≡ s.configq
    → s'.userq ≡ s.userq
    → s'.timers ≡ s.timers
    → s'.read_actions ≡ s.read_actions
    → s'.write_actions ≡ s.write_actions
    → ((running : ℕ) → s.count ≡ running + pending s → s'.count ≡ running + pending s')
    → Grows s s'
same-Grows s s' c u t r w n = record {
  inv = λ v. record {
    agree = rw t v.agree;
    reads = rw r v.reads;
    writes = rw w v.writes;
    distinct = rw u v.distinct;
    counted = n _ v.counted;
  };
  configs = rw c (Extends-refl s.configq);
  users = rw u (Extends-refl s.userq);
}

call-Grows : (now : Time) (c : Call) (s s' : Fifo) → call now c s ≡ done s' → Grows s s'
unfolding call
call-Grows now (schedule_sys what) s s' e =
    let (aid, f, g) = >>=-eq-done (get_current_aid s) _ e in
    done-Grows (schedule_configq-Grows (sys_runnable what aid) s) g
call-Grows now (schedule r) s s' e = done-Grows (schedule_userq-Grows r s) e
call-Grows now (schedule_after r offset) s s' e =
    let (t, f, g) = >>=-eq-done (Time.add now offset) _ e in
    done-Grows
      (same-Grows s _ refl refl refl refl refl
        (λ n c. let l = length-snoc (t, r) s.timerq in omega arith))
      g
call-Grows now (schedule_read_ready r fd) s s' e =
    done-Grows
      (same-Grows s _ refl refl refl refl refl
        (λ n c. let l = length-snoc (fd, r) s.readq in omega arith))
      e
call-Grows now (schedule_write_ready r fd) s s' e =
    done-Grows
      (same-Grows s _ refl refl refl refl refl
        (λ n c. let l = length-snoc (fd, r) s.writeq in omega arith))
      e
call-Grows now (close fd) s s' e = done-Grows (same-Grows s _ refl refl refl refl refl (λ n c. c)) e

pub call_all-Grows :
    (now : Time) (cs : List Call) (s s' : Fifo) → call_all now cs s ≡ done s' → Grows s s'
unfolding call_all
call_all-Grows now [] s s' e = done-Grows (Grows-refl s) e
call_all-Grows now (c ∷ cs) s s' e =
    let (s1, f, g) = >>=-eq-done (call now c s) _ e in
    Grows-trans s s1 s' (call-Grows now c s s1 f) (call_all-Grows now cs s1 s' g)

set_current-Grows : (aid : ℕ) (s s' : Fifo) → set_current aid s ≡ done s' → Grows s s'
unfolding set_current
set_current-Grows aid s s' e = elim (Bool-cases (aid == no_aid)) [
  | inl h ↦ absurd (ground arith)
  | inr h ↦
      done-Grows (same-Grows s (record s { current_aid = aid }) refl refl refl refl refl (λ n c. c))
        (ground arith)
]

clear_current-Grows : (s : Fifo) → Grows s (clear_current s)
unfolding clear_current
clear_current-Grows s = same-Grows s _ refl refl refl refl refl (λ n c. c)

output-Grows :
    (r : Runnable) (x : ActionRunnable) (s : Fifo)
    → Grows s (schedule_userq x (make (schedule_configq r s)))
output-Grows r x s =
    Grows-trans s (schedule_configq r s) _ (schedule_configq-Grows r s)
      (schedule_userq-Grows x (schedule_configq r s))

tell-Grows : (env : Env) (e : Event) (s s' : Fifo) → tell env e s ≡ done s' → Grows s s'
unfolding tell
tell-Grows env (set_current_aid aid) s s' e =
    let (s1, f, g) = >>=-eq-done (set_current aid s) _ e in
    Grows-trans s s1 s' (set_current-Grows aid s s1 f)
      (call_all-Grows env.now (env.on_aid aid) s1 s' g)
tell-Grows env clear_current_aid s s' e = done-Grows (clear_current-Grows s) e
tell-Grows env (create aid request key) s s' e = done-Grows (schedule_configq-Grows _ s) e
tell-Grows env (bind aid request key) s s' e = done-Grows (schedule_configq-Grows _ s) e
tell-Grows env (unbind aid key) s s' e = done-Grows (schedule_configq-Grows _ s) e
tell-Grows env (destroy aid key) s s' e = done-Grows (schedule_configq-Grows _ s) e
tell-Grows env (created aid t key child) s s' e = done-Grows (schedule_configq-Grows _ s) e
tell-Grows env (bound_to aid t key) s s' e = done-Grows (schedule_configq-Grows _ s) e
tell-Grows env (unbound_from aid t key) s s' e = done-Grows (schedule_configq-Grows _ s) e
tell-Grows env (destroyed aid t key) s s' e = done-Grows (schedule_configq-Grows _ s) e
tell-Grows env (output_bound x) s s' e = done-Grows (output-Grows _ (output_exec_runnable x) s) e
tell-Grows env (input_bound x) s s' e = done-Grows (schedule_configq-Grows _ s) e
tell-Grows env (output_unbound x) s s' e = done-Grows (output-Grows _ (output_exec_runnable x) s) e
tell-Grows env (input_unbound x) s s' e = done-Grows (schedule_configq-Grows _ s) e

pub tell_all-Grows :
    (env : Env) (es : List Event) (s s' : Fifo) → tell_all env es s ≡ done s' → Grows s s'
unfolding tell_all
tell_all-Grows env [] s s' e = done-Grows (Grows-refl s) e
tell_all-Grows env (x ∷ es) s s' e =
    let (s1, f, g) = >>=-eq-done (tell env x s) _ e in
    Grows-trans s s1 s' (tell-Grows env x s s1 f) (tell_all-Grows env es s1 s' g)

take_step-Grows : (env : Env) (x : Step) (s s' : Fifo) → take_step env x s ≡ done s' → Grows s s'
unfolding take_step
take_step-Grows env (Run.set_current aid) s s' e = set_current-Grows aid s s' e
take_step-Grows env Run.clear_current s s' e = done-Grows (clear_current-Grows s) e
take_step-Grows env (Run.assert_parameter p) s s' e = elim (Bool-cases (is_set p)) [
  | inl set ↦ done-Grows (Grows-refl s) (ground arith)
  | inr unset ↦ absurd (ground arith)
]
take_step-Grows env (Run.lock a) s s' e = call_all-Grows env.now (env.on_step (Run.lock a)) s s' e
take_step-Grows env (Run.unlock a) s s' e =
    call_all-Grows env.now (env.on_step (Run.unlock a)) s s' e
take_step-Grows env (Run.precondition a) s s' e =
    call_all-Grows env.now (env.on_step (Run.precondition a)) s s' e
take_step-Grows env (Run.effect a) s s' e =
    call_all-Grows env.now (env.on_step (Run.effect a)) s s' e
take_step-Grows env (Run.schedule a) s s' e =
    call_all-Grows env.now (env.on_step (Run.schedule a)) s s' e
take_step-Grows env (Run.notify a) s s' e =
    call_all-Grows env.now (env.on_step (Run.notify a)) s s' e

pub take_steps-Grows :
    (env : Env) (xs : List Step) (s s' : Fifo) → take_steps env xs s ≡ done s' → Grows s s'
unfolding take_steps
take_steps-Grows env [] s s' e = done-Grows (Grows-refl s) e
take_steps-Grows env (x ∷ xs) s s' e =
    let (s1, f, g) = >>=-eq-done (take_step env x s) _ e in
    Grows-trans s s1 s' (take_step-Grows env x s s1 f) (take_steps-Grows env xs s1 s' g)
