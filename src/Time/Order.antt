-- ===== src/Time/Order.antt =====
-- The comparisons of offsets (lib/time.cpp): by subtraction in long long.
use ioa.Prelude.{◌<◌, ◌≡◌, Bool, true, ◌&&◌, ◌||◌, not, arith, refl}
use ioa.Prelude.Int.{pos, pos_part, neg_part, ltb_ℤ, eqb_ℤ, ◌+ℤ◌, ◌-ℤ◌}
use ioa.Outcome.{done}
use ioa.Time.{Time, length_of, compare, eq, ne, less, greater, at_least, at_most, long, is_long}
use ioa.Time.Exact.{value}
use ioa.Time.Exact
use ioa.Time.Exact.Normal.{IsNormal}

-- 4 * 10 ^ 12 seconds are about 126,000 years.
abbrev pub IsNear : Time → Type 0
IsNear t = (pos_part t.sec < 4_000_000_000_000) × (neg_part t.sec < 4_000_000_000_000)

-- The order by seconds first, and then by microseconds.
abbrev pub is_same : Time → Time → Bool
is_same t o = eqb_ℤ t.sec o.sec && eqb_ℤ t.usec o.usec

abbrev pub is_before : Time → Time → Bool
is_before t o = ltb_ℤ t.sec o.sec || eqb_ℤ t.sec o.sec && ltb_ℤ t.usec o.usec

length_of-done : (t : Time) → IsNormal t → IsNear t → length_of t ≡ done (value t)
unfolding length_of value long ◌+ℤ◌
length_of-done t n (a, b) = let c = n.below in let d = n.above in ground arith

difference-is_long :
    (t o : Time)
    → IsNormal t
    → IsNormal o
    → IsNear t
    → IsNear o
    → is_long (value t -ℤ value o) ≡ true
unfolding value ◌+ℤ◌ ◌-ℤ◌
difference-is_long t o n p (a, b) (a', b') =
    let c = n.below in let d = n.above in let c' = p.below in let d' = p.above in ground arith

compare-done :
    (t o : Time)
    → IsNormal t
    → IsNormal o
    → IsNear t
    → IsNear o
    → compare t o ≡ done (value t -ℤ value o)
unfolding compare long
compare-done t o n p a b =
    rw (length_of-done t n a, length_of-done o p b, difference-is_long t o n p a b) refl

-- The sign of the difference of the lengths says how the fields are ordered.
sign-same :
    (t o : Time) → IsNormal t → IsNormal o → eqb_ℤ (value t -ℤ value o) (pos 0) ≡ is_same t o
unfolding value ◌+ℤ◌ ◌-ℤ◌
sign-same t o n p =
    let p1 = n.positive in
    let n1 = n.negative in
    let p2 = p.positive in
    let n2 = p.negative in
    let a = n.below in let b = n.above in let c = p.below in let d = p.above in ground arith

sign-before :
    (t o : Time) → IsNormal t → IsNormal o → ltb_ℤ (value t -ℤ value o) (pos 0) ≡ is_before t o
unfolding value ◌+ℤ◌ ◌-ℤ◌
sign-before t o n p =
    let p1 = n.positive in
    let n1 = n.negative in
    let p2 = p.positive in
    let n2 = p.negative in
    let a = n.below in let b = n.above in let c = p.below in let d = p.above in ground arith

sign-after :
    (t o : Time) → IsNormal t → IsNormal o → ltb_ℤ (pos 0) (value t -ℤ value o) ≡ is_before o t
unfolding value ◌+ℤ◌ ◌-ℤ◌
sign-after t o n p =
    let p1 = n.positive in
    let n1 = n.negative in
    let p2 = p.positive in
    let n2 = p.negative in
    let a = n.below in let b = n.above in let c = p.below in let d = p.above in ground arith

-- Two offsets in normal form, of less than 4 * 10 ^ 12 seconds: none of the six comparisons
-- overflows, and each is that of the fields, of the seconds first and then of the microseconds; so
-- they compare equal exactly if their fields are equal. The exact comparisons, by which the timers of
-- a scheduler are ordered, say the same.
pub less-is_before :
    (t o : Time)
    → IsNormal t
    → IsNormal o
    → IsNear t
    → IsNear o
    → (eq t o ≡ done (is_same t o))
      × (ne t o ≡ done (not (is_same t o)))
      × (less t o ≡ done (is_before t o))
      × (greater t o ≡ done (is_before o t))
      × (at_most t o ≡ done (not (is_before o t)))
      × (at_least t o ≡ done (not (is_before t o)))
      × (Exact.less t o ≡ is_before t o)
      × (Exact.greater t o ≡ is_before o t)
unfolding eq ne less greater at_most at_least Exact.less Exact.greater Exact.compare
less-is_before t o n p a b =
    let c = compare-done t o n p a b in
    let s = sign-same t o n p in
    let l = sign-before t o n p in
    let g = sign-after t o n p in
    (
      rw (c, s) refl,
      rw (c, s) refl,
      rw (c, l) refl,
      rw (c, g) refl,
      rw (c, g) refl,
      rw (c, l) refl,
      l,
      g,
    )
