-- ===== src/Time/Exact/Order.antt =====
-- The exact comparisons of offsets and their lengths in microseconds.
use ioa.Prelude.{◌≡◌, arith}
use ioa.Prelude.Int.{ltb_ℤ, -ℤ_parts}
use ioa.Time.{Time}
use ioa.Time.Exact.{value, compare, less, greater}

pub less-value :
    (t o : Time)
    → (less t o ≡ ltb_ℤ (value t) (value o)) × (greater t o ≡ ltb_ℤ (value o) (value t))
unfolding compare less greater
less-value t o = let p = -ℤ_parts (value t) (value o) in ground arith
