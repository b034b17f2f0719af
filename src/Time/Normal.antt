-- ===== src/Time/Normal.antt =====
-- Arithmetic on offsets whose fields are longs (lib/time.cpp).
use ioa.Prelude.{
  ℕ, ◌+◌, ◌-◌, ◌*◌, ◌<◌, ◌≤◌, ◌≡◌, true, false, arith, ◌∙◌, refl, Bool-cases, inl, inr, ◌⊎◌, ◌≢◌,
  sym, subst,
}
use ioa.Prelude.Int.{
  ℤ, pos, negsuc, pos_part, neg_part, quot, rem, ◌+ℤ◌, ◌-ℤ◌, parts_apart, +ℤ_parts, -ℤ_parts,
}
use ioa.Outcome.{Outcome, fault, done}
use ioa.Time.{
  Time, million, bound, is_long, long, carry, align, normalize, make, add, sub, in_range,
}
use ioa.Time.Exact.{value}
use ioa.Time.Exact
use ioa.Time.Exact.Normal.{
  IsNormal, value-parts, carry-range, align-IsNormal, check-IsNormal, align-value, carry-value,
  value-sum, value-difference,
}

-- A field of type long has such a value.
pub record AreLongs (t : Time) : Type 0 where
  pub sec : is_long t.sec ≡ true
  pub usec : is_long t.usec ≡ true

-- An operation that is to give an offset of length `v`, in microseconds: it gives it in normal form,
-- or it has no meaning and no offset in normal form with longs for fields has that length.
pub data Gives (v : ℤ) : Outcome Time → Type 0 where
  gives : {s : Time} → IsNormal s → AreLongs s → Exact.value s ≡ v → Gives v (done s)
  overflows : ((s : Time) → IsNormal s → AreLongs s → Exact.value s ≢ v) → Gives v fault

-- A length beyond the longest.
abbrev IsFar : ℤ → Type 0
IsFar v = (bound * million ≤ pos_part v) ⊎ ((bound + 1) * million ≤ neg_part v)

far-Gives : (v : ℤ) → IsFar v → Gives v fault
far-Gives v (inl h) = overflows (λ s n l e.
    let p = value-parts s in
    let w = subst (λ w. bound * million ≤ pos_part w) (sym e) h in
    let a = n.below in let b = l.sec in let c = n.positive in ground (arith, parts_apart (value s)))
far-Gives v (inr h) = overflows (λ s n l e.
    let p = value-parts s in
    let w = subst (λ w. (bound + 1) * million ≤ neg_part w) (sym e) h in
    let a = n.above in let b = l.sec in ground (arith, parts_apart (value s)))

align-exact :
    (t : Time)
    → is_long t.sec ≡ true
    → pos_part t.usec < million
    → neg_part t.usec < million
    → align t ≡ done (Exact.align t)
unfolding align Exact.align ◌+ℤ◌ ◌-ℤ◌ long
align-exact t l a b = ground arith

-- With longs for seconds, the seconds with the carry are a long, or the length is too great.
carry-IsFar :
    (t : Time)
    → is_long t.sec ≡ true
    → is_long (Exact.carry t).sec ≡ false
    → (in_range t.usec ≡ false) × IsFar (value t)
unfolding Exact.carry Exact.value quot rem ◌+ℤ◌
carry-IsFar t l f = ground arith

carry-exact : (t : Time) → is_long (Exact.carry t).sec ≡ true → carry t ≡ done (Exact.carry t)
unfolding carry Exact.carry long
carry-exact t l = elim (Bool-cases (in_range t.usec)) [ inl e ↦ rw e refl | inr e ↦ ground arith ]

carry-fault :
    (t : Time) → in_range t.usec ≡ false → is_long (Exact.carry t).sec ≡ false → carry t ≡ fault
unfolding carry Exact.carry long
carry-fault t out far = ground arith

align-AreLongs :
    (t : Time)
    → is_long t.sec ≡ true
    → pos_part t.usec < million
    → neg_part t.usec < million
    → AreLongs (Exact.align t)
unfolding Exact.align ◌+ℤ◌ ◌-ℤ◌
align-AreLongs t l a b = record { sec = ground arith; usec = ground arith }

normalize-Gives : (t : Time) → is_long t.sec ≡ true → Gives (value t) (normalize t)
unfolding normalize
normalize-Gives t l = elim (Bool-cases (is_long (Exact.carry t).sec)) [
  | inl fits ↦
      let (b, a) = carry-range t in
      let n = align-IsNormal (Exact.carry t) b a in
      rw (carry-exact t fits, align-exact (Exact.carry t) fits b a, check-IsNormal _ n)
        (gives n (align-AreLongs (Exact.carry t) fits b a)
          (align-value (Exact.carry t) ∙ carry-value t))
  | inr far ↦
      let (out, h) = carry-IsFar t l far in rw (carry-fault t out far) (far-Gives (value t) h)
]

-- Making an offset of any microseconds and of seconds that are a long gives the offset of that length: the
-- fields are longs of one sign, with less than a second of microseconds. Where it overflows instead,
-- there is no such offset.
pub make_total :
    (sec usec : ℤ)
    → is_long sec ≡ true
    → Gives (value (record { sec = sec; usec = usec })) (make sec usec)
unfolding make
make_total sec usec l = normalize-Gives (record { sec = sec; usec = usec }) l

-- The two signs that a sum of seconds beyond a long can have.
sum-IsFar :
    (t o : Time)
    → IsNormal t
    → IsNormal o
    → is_long t.sec ≡ true
    → is_long o.sec ≡ true
    → is_long (t.sec +ℤ o.sec) ≡ false
    → IsFar (value t +ℤ value o)
sum-IsFar t o n p k l far =
    let a = +ℤ_parts t.sec o.sec in
    let b = +ℤ_parts (value t) (value o) in
    let c = n.positive in
    let d = p.positive in
    let e = n.negative in
    let f = p.negative in
    ground (
      arith,
      value-parts t,
      value-parts o,
      parts_apart t.sec,
      parts_apart o.sec,
      parts_apart (t.sec +ℤ o.sec),
      parts_apart (value t +ℤ value o),
    )

difference-IsFar :
    (t o : Time)
    → IsNormal t
    → IsNormal o
    → is_long t.sec ≡ true
    → is_long o.sec ≡ true
    → neg_part o.sec < bound
    → is_long (t.sec -ℤ o.sec) ≡ false
    → IsFar (value t -ℤ value o)
difference-IsFar t o n p k l h far =
    let a = -ℤ_parts t.sec o.sec in
    let b = -ℤ_parts (value t) (value o) in
    let c = n.positive in
    let d = p.positive in
    let e = n.negative in
    let f = p.negative in
    ground (
      arith,
      value-parts t,
      value-parts o,
      parts_apart t.sec,
      parts_apart o.sec,
      parts_apart (t.sec -ℤ o.sec),
      parts_apart (value t -ℤ value o),
    )

sum-is_long : (t o : Time) → IsNormal t → IsNormal o → is_long (t.usec +ℤ o.usec) ≡ true
unfolding ◌+ℤ◌
sum-is_long t o n p =
    let a = n.below in let b = n.above in let c = p.below in let d = p.above in ground arith

difference-is_long : (t o : Time) → IsNormal t → IsNormal o → is_long (t.usec -ℤ o.usec) ≡ true
unfolding ◌-ℤ◌
difference-is_long t o n p =
    let a = n.below in let b = n.above in let c = p.below in let d = p.above in ground arith

-- Adding two offsets in normal form gives the offset in normal form whose length is the sum of
-- theirs. Where it overflows instead, no offset in normal form with longs for fields has that length.
pub add_total :
    (t o : Time)
    → IsNormal t
    → IsNormal o
    → AreLongs t
    → AreLongs o
    → Gives (value t +ℤ value o) (add t o)
unfolding add long
add_total t o n p k l =
    let u = sum-is_long t o n p in
    elim (Bool-cases (is_long (t.sec +ℤ o.sec))) [
      | inl fits ↦
          let s : Time = record { sec = t.sec +ℤ o.sec; usec = t.usec +ℤ o.usec } in
          rw (fits, u) (subst (λ v. Gives v (normalize s)) (value-sum t o) (normalize-Gives s fits))
      | inr far ↦ rw far (far-Gives _ (sum-IsFar t o n p k.sec l.sec far))
    ]

-- Subtracting two offsets in normal form, the second's seconds not the least long, gives the offset
-- in normal form whose length is the difference of theirs. Where it overflows instead, no offset in
-- normal form with longs for fields has that length.
pub sub_total :
    (t o : Time)
    → IsNormal t
    → IsNormal o
    → AreLongs t
    → AreLongs o
    → neg_part o.sec < bound
    → Gives (value t -ℤ value o) (sub t o)
unfolding sub long
sub_total t o n p k l h =
    let u = difference-is_long t o n p in
    elim (Bool-cases (is_long (t.sec -ℤ o.sec))) [
      | inl fits ↦
          let s : Time = record { sec = t.sec -ℤ o.sec; usec = t.usec -ℤ o.usec } in
          rw (fits, u)
            (subst (λ v. Gives v (normalize s)) (value-difference t o) (normalize-Gives s fits))
      | inr far ↦ rw far (far-Gives _ (difference-IsFar t o n p k.sec l.sec h far))
    ]

-- Subtracting the least long of seconds from a part of a second below 0 overflows, though there is an
-- offset in normal form, with longs for fields, of that length.
pub sub-overflows :
    (u : ℕ)
    → u + 1 < million
    → let t : Time = record { sec = pos 0; usec = negsuc u } in
      let o : Time = record { sec = negsuc (bound - 1); usec = pos 0 } in
      (sub t o ≡ fault) × ((s : Time) × IsNormal s × AreLongs s × (value s ≡ value t -ℤ value o))
unfolding sub long ◌-ℤ◌ ◌+ℤ◌ value
sub-overflows u h = (
  refl,
  (
    record { sec = pos (bound - 1); usec = pos (million - (u + 1)) },
    record {
      positive = λ p. refl;
      negative = λ p. ground arith;
      below = omega arith;
      above = omega arith;
    },
    record { sec = refl; usec = ground arith },
    ground arith,
  ),
)
