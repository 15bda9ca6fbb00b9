-- ===== src/Base/Dictionary.antt =====
-- `std::map<std::string, std::string>` as an association list, and text as a list of bytes.
use Prim.Native.Char.{code}
use Prim.Native.String.{String}
use Prim.Native.Nat.{ℕ, ◌+◌}
use mathlib.Core.Bool.{Bool, true, false, ◌&&◌, true≢false}
use mathlib.Core.Path.{◌≡◌, refl, sym, ap₂}
use mathlib.Core.List.{List, [], ◌∷◌}
use mathlib.Core.Option.{Option, none, some}
use evpp.Base.Tests.{leb, ◌==◌, if◌then◌else◌, ==_refl, ==_iff}

-- The bytes of an ASCII literal.
abbrev pub codes : String → List ℕ
codes String.[] = []
codes (String.◌∷◌ c s) = code c ∷ codes s

abbrev pub is_same : List ℕ → List ℕ → Bool
is_same [] [] = true
is_same [] (y ∷ t) = false
is_same (x ∷ s) [] = false
is_same (x ∷ s) (y ∷ t) = x == y && is_same s t

pub is_same_refl : (s : List ℕ) → is_same s s ≡ true
is_same_refl [] = refl
is_same_refl (x ∷ s) = rw (==_refl x) (is_same_refl s)

both : (a b : Bool) → (a && b) ≡ true → (a ≡ true) × (b ≡ true)
both true b h = (refl, h)
both false b h = absurd (true≢false (sym h))

pub is_same-eq : (s t : List ℕ) → is_same s t ≡ true → s ≡ t
is_same-eq [] [] h = refl
is_same-eq [] (y ∷ t) h = absurd (true≢false (sym h))
is_same-eq (x ∷ s) [] h = absurd (true≢false (sym h))
is_same-eq (x ∷ s) (y ∷ t) h =
    let (e, rest) = both (x == y) (is_same s t) h in
    ap₂ (λ z r. z ∷ r) ((==_iff x y).0 e) (is_same-eq s t rest)

abbrev pub to_lower : ℕ → ℕ
to_lower c = if leb b'A' c && leb c b'Z' then c + 32 else c

-- `find`
abbrev pub lookup : List ℕ → List (List ℕ × List ℕ) → Option (List ℕ)
lookup k [] = none
lookup k ((j, v) ∷ m) = if is_same j k then some v else lookup k m

-- `operator[]` and an assignment
abbrev pub insert : List ℕ → List ℕ → List (List ℕ × List ℕ) → List (List ℕ × List ℕ)
insert k v [] = (k, v) ∷ []
insert k v ((j, w) ∷ m) = if is_same j k then (k, v) ∷ m else (j, w) ∷ insert k v m
