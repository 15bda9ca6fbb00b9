-- ===== src/Base/Decimal.antt =====
-- Text as a list of bytes: searching it, and decimal numbers as `std::to_string` writes them and
-- `atoi` reads them. `atoi` has no overflow here.
use Prim.Native.Nat.{ℕ, zero, suc, ◌+◌, ◌-◌, ◌*◌, ◌/◌, ◌%◌, ◌^◌, ◌<◌}
use mathlib.Core.Path.{◌≡◌, refl, sym, ap, ◌∙◌}
use mathlib.Core.Logic.{inl, inr}
use mathlib.Core.Bool.{Bool, true, false, not, ◌&&◌, ◌||◌}
use mathlib.Core.List.{List, [], ◌∷◌, ◌++◌, append_assoc}
use mathlib.Core.Option.{Option, none, some}
use native.Mathlib.Nat.{pow-suc}
use native.Mathlib.Omega.{arith}
use evpp.Base.Tests.{leb, ltb, ◌==◌, if◌then◌else◌, Bool-cases, ltb→lt, ==_refl}

-- Signed integers, under the library's names; `negsuc n` is -(n + 1).
pub data ℤ : Type 0 where
  pos negsuc : ℕ → ℤ

abbrev pub neg : ℕ → ℤ
neg zero = pos zero
neg (suc n) = negsuc n

abbrev pub has : ℕ → List ℕ → Bool
has c [] = false
has c (x ∷ s) = (x == c) || has c s

-- `rfind` of a character: the text before its last occurrence, and behind it.
pub rsplit : ℕ → List ℕ → Option (List ℕ × List ℕ)
rsplit c [] = none
rsplit c (x ∷ s) = elim (rsplit c s) [
  | none ↦ if x == c then some ([], s) else none
  | some (a, b) ↦ some (x ∷ a, b)
]

pub rsplit-none : (c : ℕ) (s : List ℕ) → has c s ≡ false → rsplit c s ≡ none
unfolding rsplit
rsplit-none c [] h = refl
rsplit-none c (x ∷ s) h = ground (arith, rsplit-none c s)

pub rsplit-some : (c : ℕ) (a b : List ℕ) → has c b ≡ false → rsplit c (a ++ c ∷ b) ≡ some (a, b)
unfolding rsplit
rsplit-some c [] b h = rw (rsplit-none c b h) rw (==_refl c) refl
rsplit-some c (x ∷ a) b h = rw (rsplit-some c a b h) refl

abbrev pub is_digit : ℕ → Bool
is_digit c = leb b'0' c && leb c b'9'

abbrev pub is_space : ℕ → Bool
is_space c = (leb 9 c && leb c 13) || (c == 32)

-- `n` has at most `fuel` digits.
digits : ℕ → ℕ → List ℕ
digits zero n = []
digits (suc fuel) n =
    let more = digits fuel (n / 10) in
    if ltb n 10 then (b'0' + n) ∷ [] else more ++ (b'0' + n % 10) ∷ []

-- `std::to_string` of an `int` that is not negative: 20 digits are more than it has.
pub to_string : ℕ → List ℕ
to_string n = digits 20 n

-- The digits at the start, behind a number that has been read.
value : ℕ → List ℕ → ℕ
value n [] = n
value n (c ∷ s) = let rest = value (n * 10 + (c - b'0')) s in if is_digit c then rest else n

skip_space : List ℕ → List ℕ
skip_space [] = []
skip_space (c ∷ s) = let rest = skip_space s in if is_space c then rest else c ∷ s

signed : List ℕ → ℤ
signed [] = pos 0
signed (c ∷ s) =
    if c == b'-'
    then neg (value 0 s)
    else if c == b'+'
    then pos (value 0 s)
    else pos (value 0 (c ∷ s))

pub atoi : List ℕ → ℤ
atoi s = signed (skip_space s)

digit-value : (n d : ℕ) (s : List ℕ) → d < 10 → value n ((b'0' + d) ∷ s) ≡ value (n * 10 + d) s
unfolding value
digit-value n d s h = ground arith

fewer : (fuel n : ℕ) → n < 10 ^ suc fuel → n / 10 < 10 ^ fuel
fewer fuel n h = omega (arith, pow-suc 10 fuel)

last_digit : (n : ℕ) → n / 10 * 10 + n % 10 ≡ n
last_digit n = omega arith

value-digits : (fuel n : ℕ) (s : List ℕ) → n < 10 ^ fuel → value 0 (digits fuel n ++ s) ≡ value n s
unfolding digits
value-digits zero n s h = ap (λ k. value k s) (omega arith)
value-digits (suc fuel) n s h = elim (Bool-cases (ltb n 10)) [
  | inl e ↦ rw e (digit-value 0 n s (ltb→lt n 10 e) ∙ ap (λ k. value k s) (omega arith))
  | inr e ↦ rw e (
      ap (value 0) (append_assoc (digits fuel (n / 10)) ((b'0' + n % 10) ∷ []) s)
      ∙ value-digits fuel (n / 10) ((b'0' + n % 10) ∷ s) (fewer fuel n h)
      ∙ digit-value (n / 10) (n % 10) s (omega arith)
      ∙ ap (λ k. value k s) (last_digit n))
]

-- Does not start with a digit.
abbrev pub stops : List ℕ → Bool
stops [] = true
stops (c ∷ s) = not (is_digit c)

value-stops : (n : ℕ) (s : List ℕ) → stops s ≡ true → value n s ≡ n
unfolding value
value-stops n [] h = refl
value-stops n (c ∷ s) h = ground arith

digits-head :
    (fuel n : ℕ) → (d : ℕ) × (ds : List ℕ) × (digits (suc fuel) n ≡ (b'0' + d) ∷ ds) × (d < 10)
unfolding digits
digits-head zero n = elim (Bool-cases (ltb n 10)) [
  | inl e ↦ (n, [], rw e refl, ltb→lt n 10 e)
  | inr e ↦ (n % 10, [], rw e refl, omega arith)
]
digits-head (suc fuel) n = elim (Bool-cases (ltb n 10)) [
  | inl e ↦ (n, [], rw e refl, ltb→lt n 10 e)
  | inr e ↦
      let (d, ds, eq, small) = digits-head fuel (n / 10) in
      (d, ds ++ (b'0' + n % 10) ∷ [], rw e (ap (λ t. t ++ (b'0' + n % 10) ∷ []) eq), small)
]

signed-digit :
    (d : ℕ) (s : List ℕ)
    → d < 10
    → signed (skip_space ((b'0' + d) ∷ s)) ≡ pos (value 0 ((b'0' + d) ∷ s))
unfolding signed skip_space
signed-digit d s h = ground arith

-- `atoi` reads what `to_string` wrote, whatever follows if it is no digit.
pub atoi-to_string :
    (n : ℕ) (s : List ℕ) → n < 10 ^ 20 → stops s ≡ true → atoi (to_string n ++ s) ≡ pos n
unfolding atoi to_string
atoi-to_string n s h e =
    let (d, ds, eq, small) = digits-head 19 n in
    ap (λ t. signed (skip_space (t ++ s))) eq
    ∙ signed-digit d (ds ++ s) small
    ∙ ap pos (sym (ap (λ t. value 0 (t ++ s)) eq) ∙ value-digits 20 n s h ∙ value-stops n s e)

pub has-append : (c : ℕ) (s t : List ℕ) → has c (s ++ t) ≡ (has c s || has c t)
has-append c [] t = refl
has-append c (x ∷ s) t = ground (arith, has-append c s t)

not_digit : (c d : ℕ) → is_digit c ≡ false → d < 10 → (b'0' + d == c) ≡ false
not_digit c d h small = ground arith

has-digits : (c fuel n : ℕ) → is_digit c ≡ false → has c (digits fuel n) ≡ false
unfolding digits
has-digits c zero n h = refl
has-digits c (suc fuel) n h = elim (Bool-cases (ltb n 10)) [
  | inl e ↦ rw e rw (not_digit c n h (ltb→lt n 10 e)) refl
  | inr e ↦
      rw e rw (has-append c (digits fuel (n / 10)) ((b'0' + n % 10) ∷ [])) rw
        (has-digits c fuel (n / 10) h) rw (not_digit c (n % 10) h (omega arith)) refl
]

-- What `to_string` writes has digits only, and at least one.
pub has-to_string : (c n : ℕ) → is_digit c ≡ false → has c (to_string n) ≡ false
unfolding to_string
has-to_string c n h = has-digits c 20 n h

pub to_string-head : (n : ℕ) → (c : ℕ) × (s : List ℕ) × (to_string n ≡ c ∷ s)
unfolding to_string
to_string-head n = let (d, ds, e, h) = digits-head 19 n in (b'0' + d, ds, e)
