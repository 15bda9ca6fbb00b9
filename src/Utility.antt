-- ===== src/Utility.antt =====
-- evpp/utility.h: StringSplit.
pub mod Splitting
use evpp.Base.{
  ℕ, zero, suc, ◌+◌, Bool, true, false, not, List, [], ◌∷◌, Option, none, some, ◌&&◌, ◌==◌,
  if◌then◌else◌, length,
}
use evpp.Base.Decimal.{has}

-- `find_first_of`: the text in front of the first delimiter, and what is behind it
abbrev pub cut : List ℕ → List ℕ → List ℕ × Option (List ℕ)
cut delims [] = ([], none)
cut delims (c ∷ s) =
    let (before, rest) = cut delims s in if has c delims then ([], some s) else (c ∷ before, rest)

-- One round of the loop from `s` on, after `n` rounds; `more` are the rounds behind a delimiter.
abbrev pub part :
    ℕ → ℕ → List ℕ → List ℕ × Option (List ℕ) → (List ℕ → List (List ℕ)) → List (List ℕ)
part max n s (before, none) more = before ∷ []
part max n s ([], some rest) more = [] ∷ more rest
part max n s (b ∷ before, some rest) more =
    if not (max == 0) && (n + 1 == max) then s ∷ [] else (b ∷ before) ∷ more rest

-- The loop of `StringSplit`, of which each round but the last takes a delimiter; the fuel is the
-- number of bytes.
pub split_from : ℕ → List ℕ → ℕ → ℕ → List ℕ → List (List ℕ)
split_from zero delims max n s = s ∷ []
split_from (suc fuel) delims max n s =
    part max n s (cut delims s) (λ rest. split_from fuel delims max (n + 1) rest)

-- `StringSplit`: what it appends
pub string_split : List ℕ → ℕ → List ℕ → List (List ℕ)
string_split delims max [] = []
string_split delims max (c ∷ s) = split_from (length (c ∷ s)) delims max 0 (c ∷ s)
