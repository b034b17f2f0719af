-- ===== src/Scheduler/Timers/Order.antt =====
-- The orders that the maps of the timers rest on: that of times, and that of actions.
use ioa.Prelude.{◌≡◌, true, false, arith}
use ioa.Executor.{get_pid, same, less}
use ioa.Time.{Time}
use ioa.Time.Exact
use ioa.Time.Exact.Order.{less-value}
use ioa.Runnable.{ActionRunnable, equal, equivalent, precedes}

pub less_irrefl : (t : Time) → Exact.less t t ≡ false
less_irrefl t = let h = (less-value t t).0 in ground arith

-- Two steps up that do not go down are one.
pub less_trans :
    (t u v : Time) → Exact.less u t ≡ false → Exact.less v u ≡ false → Exact.less v t ≡ false
less_trans t u v h k =
    let a = (less-value u t).0 in
    let b = (less-value v u).0 in let c = (less-value v t).0 in ground arith

pub less_asym : (t u : Time) → Exact.less t u ≡ true → Exact.less u t ≡ false
less_asym t u h = let a = (less-value u t).0 in let b = (less-value t u).0 in ground arith

pub equivalent-equal : (a b : ActionRunnable) → equivalent a b ≡ equal a b
unfolding equivalent equal precedes same less get_pid
equivalent-equal a b = ground arith

pub equivalent_refl : (a : ActionRunnable) → equivalent a a ≡ true
unfolding equivalent precedes less get_pid
equivalent_refl a = ground arith

pub equivalent_sym : (a b : ActionRunnable) → equivalent a b ≡ equivalent b a
unfolding equivalent
equivalent_sym a b = ground arith

pub equivalent_trans :
    (a b c : ActionRunnable) → equivalent a b ≡ true → equivalent b c ≡ equivalent a c
unfolding equivalent precedes less get_pid
equivalent_trans a b c h = ground arith
