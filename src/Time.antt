-- ===== src/Time.antt =====
-- lib/time.cpp: a time offset as seconds and microseconds of one sign. The fields are of type long;
-- every result of its arithmetic is tested for being one, and an overflow, which C++ gives no
-- meaning, is a fault. long and long long have 64 bits.
pub mod Exact
pub mod Normal
pub mod Order
use ioa.Prelude.{ℕ, Bool, ◌+◌, ◌^◌, ◌*◌, ◌&&◌, ◌||◌, not, ltb, if◌then◌else◌}
use ioa.Prelude.Int.{ℤ, pos, negsuc, pos_part, neg_part, sub_ℕ, ◌+ℤ◌, ◌-ℤ◌, ltb_ℤ, eqb_ℤ, quot, rem}
use ioa.Outcome.{Outcome, fault, done, ◌>>=◌}

abbrev pub million : ℕ
million = 1000000

-- The bound of a signed integer of 64 bits.
abbrev pub bound : ℕ
bound = 0x8000_0000_0000_0000

abbrev pub is_long : ℤ → Bool
is_long a = ltb (pos_part a) bound && ltb (neg_part a) (bound + 1)

-- The result of an operation on signed integers.
unfoldable pub long : ℤ → Outcome ℤ
long a = if is_long a then done a else fault

pub record Time : Type 0 where
  pub sec : ℤ
  pub usec : ℤ

abbrev pub is_neg : ℤ → Bool
is_neg a = ltb_ℤ a (pos 0)

abbrev pub is_pos : ℤ → Bool
is_pos a = ltb_ℤ (pos 0) a

-- m_usec > -MILLION and m_usec < MILLION
abbrev pub in_range : ℤ → Bool
in_range u = ltb_ℤ (sub_ℕ 0 million) u && ltb_ℤ u (pos million)

-- The assertion of `check`. The code bounds m_usec on the side that the signs leave open.
unfoldable pub check : Time → Outcome Time
check t =
    if not (is_pos t.sec) && not (is_pos t.usec) && ltb_ℤ (sub_ℕ 0 million) t.usec
      || not (is_neg t.sec) && not (is_neg t.usec) && ltb_ℤ t.usec (pos million)
    then done t
    else fault

-- The first step of `normalize`: whole seconds leave the microseconds.
unfoldable pub carry : Time → Outcome Time
unfolding quot rem ◌+ℤ◌ long
carry t = if in_range t.usec then done t else do
  s ← long (t.sec +ℤ quot t.usec million)
  done (record { sec = s; usec = rem t.usec million })

-- The second: the two fields get one sign.
unfoldable pub align : Time → Outcome Time
unfolding ◌+ℤ◌ ◌-ℤ◌ long
align t =
    if is_pos t.sec && is_neg t.usec
    then (do
      s ← long (t.sec -ℤ pos 1)
      u ← long (t.usec +ℤ pos million)
      done (record { sec = s; usec = u }))
    else if is_neg t.sec && is_pos t.usec
    then (do
      s ← long (t.sec +ℤ pos 1)
      u ← long (t.usec -ℤ pos million)
      done (record { sec = s; usec = u }))
    else done t

unfoldable pub normalize : Time → Outcome Time
unfolding carry align check
normalize t = do a ← carry t; b ← align a; check b

abbrev pub times_million : ℤ → ℤ
times_million a = sub_ℕ (pos_part a * million) (neg_part a * million)

-- An operand of the subtraction in `compare`, in long long.
unfoldable pub length_of : Time → Outcome ℤ
unfolding ◌+ℤ◌ long
length_of t = do s ← long (times_million t.sec); long (s +ℤ t.usec)

unfoldable pub compare : Time → Time → Outcome ℤ
unfolding length_of ◌-ℤ◌ long
compare t o = do a ← length_of t; b ← length_of o; long (a -ℤ b)

-- time (sec, usec)
unfoldable pub make : ℤ → ℤ → Outcome Time
unfolding normalize
make sec usec = normalize (record { sec = sec; usec = usec })

-- operator+ and operator+=
unfoldable pub add : Time → Time → Outcome Time
unfolding normalize ◌+ℤ◌ long
add t o = do
  s ← long (t.sec +ℤ o.sec)
  u ← long (t.usec +ℤ o.usec)
  normalize (record { sec = s; usec = u })

-- operator- and operator-=
unfoldable pub sub : Time → Time → Outcome Time
unfolding normalize ◌-ℤ◌ long
sub t o = do
  s ← long (t.sec -ℤ o.sec)
  u ← long (t.usec -ℤ o.usec)
  normalize (record { sec = s; usec = u })

unfoldable pub eq : Time → Time → Outcome Bool
unfolding compare
eq t o = do c ← compare t o; done (eqb_ℤ c (pos 0))

unfoldable pub less : Time → Time → Outcome Bool
unfolding compare
less t o = do c ← compare t o; done (ltb_ℤ c (pos 0))

unfoldable pub ne : Time → Time → Outcome Bool
unfolding compare
ne t o = do c ← compare t o; done (not (eqb_ℤ c (pos 0)))

unfoldable pub greater : Time → Time → Outcome Bool
unfolding compare
greater t o = do c ← compare t o; done (ltb_ℤ (pos 0) c)

unfoldable pub at_least : Time → Time → Outcome Bool
unfolding compare
at_least t o = do c ← compare t o; done (not (ltb_ℤ c (pos 0)))

unfoldable pub at_most : Time → Time → Outcome Bool
unfolding compare
at_most t o = do c ← compare t o; done (not (ltb_ℤ (pos 0) c))

-- The conversion to a timeval asserts that neither field is negative.
unfoldable pub to_timeval : Time → Outcome (ℤ × ℤ)
to_timeval t = if not (is_neg t.sec) && not (is_neg t.usec) then done (t.sec, t.usec) else fault

-- time (const struct timeval&) checks what it is given.
unfoldable pub of_timeval : ℤ → ℤ → Outcome Time
unfolding check
of_timeval sec usec = check (record { sec = sec; usec = usec })
