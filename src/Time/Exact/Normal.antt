-- ===== src/Time/Exact/Normal.antt =====
-- The normal form of an offset, and exact arithmetic on offsets.
use ioa.Prelude.{◌+◌, ◌*◌, ◌<◌, ◌≡◌, arith, ◌∙◌}
use ioa.Prelude.Int.{
  pos_part, neg_part, quot, rem, ◌+ℤ◌, ◌-ℤ◌, eq_of_parts, parts_apart, +ℤ_parts, -ℤ_parts,
}
use ioa.Outcome.{done}
use ioa.Time.{Time, million, check}
use ioa.Time.Exact.{carry, align, normalize, value, sub}

-- The fields are of one sign, and the microseconds make less than a second.
pub record IsNormal (t : Time) : Type 0 where
  pub positive : 0 < pos_part t.sec → neg_part t.usec ≡ 0
  pub negative : 0 < neg_part t.sec → pos_part t.usec ≡ 0
  pub below : pos_part t.usec < million
  pub above : neg_part t.usec < million

pub check-IsNormal : (t : Time) → IsNormal t → check t ≡ done t
unfolding check
check-IsNormal t n =
    let p = n.positive in
    let q = n.negative in
    let b = n.below in let a = n.above in ground (arith, parts_apart t.usec, parts_apart t.sec)

pub carry-range :
    (t : Time) → (pos_part (carry t).usec < million) × (neg_part (carry t).usec < million)
unfolding carry rem
carry-range t = ground arith

pub align-IsNormal :
    (t : Time) → pos_part t.usec < million → neg_part t.usec < million → IsNormal (align t)
unfolding align ◌+ℤ◌ ◌-ℤ◌
align-IsNormal t b a = ground (arith, parts_apart t.usec, parts_apart t.sec)

pub align-value : (t : Time) → value (align t) ≡ value t
unfolding align value ◌+ℤ◌ ◌-ℤ◌
align-value t = ground arith

pub carry-value : (t : Time) → value (carry t) ≡ value t
unfolding carry value quot rem ◌+ℤ◌
carry-value t = ground arith

pub normalize-done :
    (t : Time) → (s : Time) × (normalize t ≡ done s) × IsNormal s × (value s ≡ value t)
unfolding normalize
normalize-done t =
    let (b, a) = carry-range t in
    let n = align-IsNormal (carry t) b a in
    (align (carry t), check-IsNormal _ n, n, align-value (carry t) ∙ carry-value t)

pub value-parts :
    (t : Time)
    → pos_part (value t) + neg_part t.sec * million + neg_part t.usec
      ≡ neg_part (value t) + pos_part t.sec * million + pos_part t.usec
unfolding value ◌+ℤ◌
value-parts t = ground arith

pub value-sum :
    (t o : Time)
    → value (record { sec = t.sec +ℤ o.sec; usec = t.usec +ℤ o.usec }) ≡ value t +ℤ value o
value-sum t o =
    let s : Time = record { sec = t.sec +ℤ o.sec; usec = t.usec +ℤ o.usec } in
    eq_of_parts (value s) (value t +ℤ value o) (
      omega (
        arith,
        value-parts t,
        value-parts o,
        value-parts s,
        +ℤ_parts t.sec o.sec,
        +ℤ_parts t.usec o.usec,
        +ℤ_parts (value t) (value o),
      ))

pub value-difference :
    (t o : Time)
    → value (record { sec = t.sec -ℤ o.sec; usec = t.usec -ℤ o.usec }) ≡ value t -ℤ value o
value-difference t o =
    let s : Time = record { sec = t.sec -ℤ o.sec; usec = t.usec -ℤ o.usec } in
    eq_of_parts (value s) (value t -ℤ value o) (
      omega (
        arith,
        value-parts t,
        value-parts o,
        value-parts s,
        -ℤ_parts t.sec o.sec,
        -ℤ_parts t.usec o.usec,
        -ℤ_parts (value t) (value o),
      ))

-- Subtracting two offsets never fails the assertion: the difference has fields of one sign with less
-- than a second of microseconds, and its length in microseconds is the difference of the two lengths.
pub difference_total :
    (t o : Time) → (s : Time) × (sub t o ≡ done s) × IsNormal s × (value s ≡ value t -ℤ value o)
unfolding sub
difference_total t o =
    let (s, e, n, v) = normalize-done (record { sec = t.sec -ℤ o.sec; usec = t.usec -ℤ o.usec }) in
    (s, e, n, v ∙ value-difference t o)
