-- ===== src/Duration.antt =====
-- evpp/duration.inl.h and timestamp.inl.h: a number of nanoseconds, as a length of time and as a time
-- since the epoch. A result that does not fit an `int64_t` is undefined in C++ and has no bound here.
pub mod Rounding
use evpp.Base.{
  ℕ, zero, suc, ◌+◌, ◌-◌, ◌*◌, ◌/◌, ◌%◌, Bool, true, false, ◌==◌, ltb, leb, not, if◌then◌else◌,
}
use evpp.Base.Decimal.{ℤ, pos, negsuc, neg}

abbrev pub second : ℕ
second = 1000000000

abbrev pub microsecond : ℕ
microsecond = 1000

-- The arithmetic of C++: division and remainder by a positive number cut towards zero.
abbrev pub quot : ℤ → ℕ → ℤ
quot (pos n) k = pos (n / k)
quot (negsuc n) k = neg (suc n / k)

abbrev pub rem : ℤ → ℕ → ℤ
rem (pos n) k = pos (n % k)
rem (negsuc n) k = neg (suc n % k)

abbrev pub times : ℤ → ℕ → ℤ
times (pos n) k = pos (n * k)
times (negsuc n) k = neg (suc n * k)

abbrev pub minus : ℕ → ℕ → ℤ
minus m n = if leb n m then pos (m - n) else neg (n - m)

abbrev pub plus : ℤ → ℤ → ℤ
plus (pos m) (pos n) = pos (m + n)
plus (pos m) (negsuc n) = minus m (suc n)
plus (negsuc m) (pos n) = minus n (suc m)
plus (negsuc m) (negsuc n) = neg (suc m + suc n)

abbrev pub opposite : ℤ → ℤ
opposite (pos n) = neg n
opposite (negsuc n) = pos (suc n)

abbrev pub less : ℤ → ℤ → Bool
less (pos m) (pos n) = ltb m n
less (pos m) (negsuc n) = false
less (negsuc m) (pos n) = true
less (negsuc m) (negsuc n) = ltb n m

pub record TimeVal : Type 0 where
  pub tv_sec : ℤ
  pub tv_usec : ℤ

-- `Duration(const struct timeval&)` and `Timestamp(const struct timeval&)`
pub from_timeval : TimeVal → ℤ
from_timeval t = plus (times t.tv_sec second) (times t.tv_usec microsecond)

-- `To` and `TimeVal`
pub to_timeval : ℤ → TimeVal
to_timeval ns = record { tv_sec = quot ns second; tv_usec = quot (rem ns second) microsecond }

-- `IsZero` and `IsEpoch`
pub is_zero : ℤ → Bool
is_zero (pos n) = n == 0
is_zero (negsuc n) = false

-- `Unix` and `UnixMicro`
pub unix : ℤ → ℤ
unix ns = quot ns second

pub unix_micro : ℤ → ℤ
unix_micro ns = quot ns microsecond

-- `Add`, `operator+` and `operator+=`
pub add : ℤ → ℤ → ℤ
add ns d = plus ns d

-- `operator-` and `operator-=`
pub subtract : ℤ → ℤ → ℤ
subtract ns d = plus ns (opposite d)

-- `operator<` and `operator<=`
pub is_less : ℤ → ℤ → Bool
is_less a b = less a b

pub is_at_most : ℤ → ℤ → Bool
is_at_most a b = not (less b a)
