-- ===== src/Float/Fixed.antt =====
-- Fixed-point numbers of thousandths: an implementation of `Float` that runs.
use navigation.Prelude.{
  ℕ, zero, suc, ◌+◌, ◌*◌, ◌/◌, ◌^◌, Bool, true, false, ℤ, pos, negsuc, pos_part, neg_part, sub_ℕ,
  ◌+ℤ◌, ◌-ℤ◌, ltb_ℤ, leb_ℤ, leb, if◌then◌else◌, arith,
}
use navigation.Float.Defs.{Float, IsOrdered}

abbrev pub Millis : Type 0
Millis = ℤ

-- A number of the given sign, zero included.
abbrev signed : Bool → ℕ → ℤ
signed true n = sub_ℕ 0 n
signed false n = pos n

abbrev is_negative : ℤ → Bool
is_negative (pos n) = false
is_negative (negsuc n) = true

abbrev magnitude : ℤ → ℕ
magnitude a = pos_part a + neg_part a

-- The sign of a product.
abbrev mixed : ℤ → ℤ → Bool
mixed a b = if is_negative a then (if is_negative b then false else true) else is_negative b

-- The integer square root, one binary digit at a time.
unfoldable pub isqrt : ℕ → ℕ → ℕ → ℕ
isqrt zero r n = r
isqrt (suc k) r n = isqrt k (if leb ((r + 2 ^ k) * (r + 2 ^ k)) n then r + 2 ^ k else r) n

instance abbrev pub millis : Float Millis
millis = record {
  of_int = λ k. signed (is_negative k) (1000 * magnitude k);
  lit = λ n d. pos (1000 * n / d);
  add = ◌+ℤ◌;
  sub = ◌-ℤ◌;
  mul = λ a b. signed (mixed a b) (magnitude a * magnitude b / 1000);
  div = λ a b. signed (mixed a b) (1000 * magnitude a / magnitude b);
  neg = λ a. sub_ℕ (neg_part a) (pos_part a);
  leb = leb_ℤ;
  ltb = ltb_ℤ;
  trunc = λ a. signed (is_negative a) (magnitude a / 1000);
  round = λ a. signed (is_negative a) ((magnitude a + 500) / 1000);
  sqrt = λ a. pos (isqrt 24 0 (1000 * pos_part a));
  hypot = λ a b. pos (isqrt 24 0 (magnitude a * magnitude a + magnitude b * magnitude b));
}

-- The thousandths themselves.
abbrev pub milli : ℤ → Millis
milli a = a

pub Millis-IsOrdered : IsOrdered Millis
unfolding isqrt ◌+ℤ◌
Millis-IsOrdered = ground arith
