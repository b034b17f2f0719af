-- ===== src/Time/Exact.antt =====
-- Arithmetic on offsets (lib/time.cpp) as it is where no long overflows: the specification of
-- the operations of Time, and what the schedulers take for the times that they compare and subtract.
pub mod Normal
pub mod Order
use ioa.Prelude.{Bool, ◌&&◌, if◌then◌else◌}
use ioa.Prelude.Int.{ℤ, pos, ◌+ℤ◌, ◌-ℤ◌, ltb_ℤ, quot, rem}
use ioa.Outcome.{Outcome}
use ioa.Time.{Time, million, is_neg, is_pos, in_range, check, times_million}

-- Whole seconds leave the microseconds.
unfoldable pub carry : Time → Time
unfolding quot rem ◌+ℤ◌
carry t =
    if in_range t.usec
    then t
    else record { sec = t.sec +ℤ quot t.usec million; usec = rem t.usec million }

-- The two fields get one sign.
unfoldable pub align : Time → Time
unfolding ◌+ℤ◌ ◌-ℤ◌
align t =
    if is_pos t.sec && is_neg t.usec
    then record { sec = t.sec -ℤ pos 1; usec = t.usec +ℤ pos million }
    else if is_neg t.sec && is_pos t.usec
    then record { sec = t.sec +ℤ pos 1; usec = t.usec -ℤ pos million }
    else t

unfoldable pub normalize : Time → Outcome Time
unfolding carry align check
normalize t = check (align (carry t))

-- The whole offset in microseconds.
unfoldable pub value : Time → ℤ
unfolding ◌+ℤ◌
value t = times_million t.sec +ℤ t.usec

unfoldable pub compare : Time → Time → ℤ
unfolding value ◌-ℤ◌
compare t o = value t -ℤ value o

unfoldable pub sub : Time → Time → Outcome Time
unfolding normalize ◌-ℤ◌
sub t o = normalize (record { sec = t.sec -ℤ o.sec; usec = t.usec -ℤ o.usec })

unfoldable pub less : Time → Time → Bool
unfolding compare
less t o = ltb_ℤ (compare t o) (pos 0)

unfoldable pub greater : Time → Time → Bool
unfolding compare
greater t o = ltb_ℤ (pos 0) (compare t o)
