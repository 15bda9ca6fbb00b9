-- ===== src/Duration/Rounding.antt =====
-- evpp/duration.inl.h and timestamp.inl.h: nanoseconds against a `timeval`.
use evpp.Base.{
  ℕ, zero, suc, ◌+◌, ◌-◌, ◌*◌, ◌/◌, ◌%◌, ◌≡◌, refl, sym, ap, ap₂, ◌∙◌, leb, leb→le, Bool-cases, inl,
  inr, arith,
}
use evpp.Base.Decimal.{ℤ, pos, negsuc, neg}
use evpp.Duration.{second, microsecond, quot, times, minus, plus, from_timeval, to_timeval}

-- Without the part below a microsecond, cut towards zero
abbrev pub whole_micros : ℤ → ℤ
whole_micros (pos n) = pos (n - n % 1000)
whole_micros (negsuc n) = neg (suc n - suc n % 1000)

sub_zero : (n : ℕ) → n - 0 ≡ n
sub_zero n = omega arith

zero_add : (n : ℕ) → n ≡ 0 + n
zero_add n = omega arith

add_zero : (n : ℕ) → n ≡ n + 0
add_zero n = omega arith

minus-from_zero : (n : ℕ) → minus 0 n ≡ neg n
minus-from_zero zero = refl
minus-from_zero (suc n) = elim (Bool-cases (leb (suc n) 0)) [
  | inl e ↦ absurd (omega (arith, leb→le (suc n) 0 e))
  | inr e ↦ rw e (ap neg (sub_zero (suc n)))
]

plus-neg : (a b : ℕ) → plus (neg a) (neg b) ≡ neg (a + b)
plus-neg zero zero = refl
plus-neg zero (suc b) = minus-from_zero (suc b) ∙ ap neg (zero_add (suc b))
plus-neg (suc a) zero = minus-from_zero (suc a) ∙ ap neg (add_zero (suc a))
plus-neg (suc a) (suc b) = refl

pos-neg : (m : ℕ) → m ≡ 0 → pos m ≡ neg m
pos-neg m e = ap pos e ∙ sym (ap neg e)

times-neg : (a k : ℕ) → times (neg a) k ≡ neg (a * k)
times-neg zero k = pos-neg (0 * k) (omega arith)
times-neg (suc a) k = refl

quot-neg : (a k : ℕ) → 0 / k ≡ 0 → quot (neg a) k ≡ neg (a / k)
quot-neg zero k h = pos-neg (0 / k) h
quot-neg (suc a) k h = refl

parts : (n : ℕ) → n / second * second + n % second / microsecond * microsecond ≡ n - n % 1000
parts n = omega arith

-- A `timeval` keeps whole microseconds, also of a negative length of time or a time before the
-- epoch, of which both members are then negative or zero.
pub from_timeval-to_timeval : (ns : ℤ) → from_timeval (to_timeval ns) ≡ whole_micros ns
unfolding from_timeval to_timeval
from_timeval-to_timeval (pos n) = ap pos (parts n)
from_timeval-to_timeval (negsuc n) =
    ap₂ plus (times-neg (suc n / second) second) (
      ap (λ z. times z microsecond) (quot-neg (suc n % second) microsecond refl)
      ∙ times-neg (suc n % second / microsecond) microsecond)
    ∙ plus-neg (suc n / second * second) (suc n % second / microsecond * microsecond)
    ∙ ap neg (parts (suc n))
