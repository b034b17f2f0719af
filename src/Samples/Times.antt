-- ===== src/Samples/Times.antt =====
-- The theorems on offsets, at small ones.
use ioa.Prelude.{◌≡◌, arith, refl, not, ◌-◌}
use ioa.Prelude.Int.{pos, negsuc, ◌+ℤ◌, ◌-ℤ◌}
use ioa.Outcome.{fault, done}
use ioa.Time.{Time, bound, make, add, sub, eq, ne, less, greater, at_least, at_most}
use ioa.Time.Exact.{value}
use ioa.Time.Exact
use ioa.Time.Exact.Normal.{IsNormal}
use ioa.Time.Normal.{AreLongs, Gives, make_total, add_total, sub_total, sub-overflows}
use ioa.Time.Order.{is_same, is_before, less-is_before}

abbrev half : Time
half = record { sec = pos 0; usec = pos 500000 }

abbrev half_back : Time
half_back = record { sec = pos 0; usec = negsuc 499999 }

abbrev two : Time
two = record { sec = pos 2; usec = pos 0 }

half-IsNormal : IsNormal half
half-IsNormal = ground arith

half_back-IsNormal : IsNormal half_back
half_back-IsNormal = ground arith

two-IsNormal : IsNormal two
two-IsNormal = ground arith

half_back-AreLongs : AreLongs half_back
half_back-AreLongs = record { sec = refl; usec = refl }

two-AreLongs : AreLongs two
two-AreLongs = record { sec = refl; usec = refl }

-- Two seconds less two and a half.
make_total_example :
    Gives (value (record { sec = pos 2; usec = negsuc 2499999 })) (make (pos 2) (negsuc 2499999))
    × (make (pos 2) (negsuc 2499999) ≡ done half_back)
unfolding make
make_total_example = (make_total (pos 2) (negsuc 2499999) refl, refl)

add_total_example :
    Gives (value two +ℤ value half_back) (add two half_back)
    × (add two half_back ≡ done (record { sec = pos 1; usec = pos 500000 }))
unfolding add
add_total_example =
    (add_total two half_back two-IsNormal half_back-IsNormal two-AreLongs half_back-AreLongs, refl)

sub_total_example :
    Gives (value half_back -ℤ value two) (sub half_back two)
    × (sub half_back two ≡ done (record { sec = negsuc 1; usec = negsuc 499999 }))
unfolding sub
sub_total_example = (
  sub_total half_back two half_back-IsNormal two-IsNormal half_back-AreLongs two-AreLongs
      (omega arith),
  refl,
)

sub-overflows_example :
    (sub
        (record { sec = pos 0; usec = negsuc 4 })
        (record { sec = negsuc (bound - 1); usec = pos 0 })
      ≡ fault)
    × ((s : Time) × IsNormal s
        × AreLongs s
        × (value s
            ≡ value (record { sec = pos 0; usec = negsuc 4 })
              -ℤ value (record { sec = negsuc (bound - 1); usec = pos 0 })))
sub-overflows_example = sub-overflows 4 (omega arith)

less-is_before_example :
    (eq half two ≡ done (is_same half two))
    × (ne half two ≡ done (not (is_same half two)))
    × (less half two ≡ done (is_before half two))
    × (greater half two ≡ done (is_before two half))
    × (at_most half two ≡ done (not (is_before two half)))
    × (at_least half two ≡ done (not (is_before half two)))
    × (Exact.less half two ≡ is_before half two)
    × (Exact.greater half two ≡ is_before two half)
less-is_before_example =
    less-is_before half two half-IsNormal two-IsNormal (omega arith, omega arith)
      (omega arith, omega arith)
