-- ===== src/QueryString.antt =====
-- evpp/http/context.cc: the value of a key in the query of a URI. A text has no zero byte; the loop
-- is on fuel, and `none` is that it has run out.
pub mod Lookup
mod Tests
use evpp.Base.{
  ℕ, zero, suc, Bool, true, false, List, [], ◌∷◌, Option, none, some, ◌==◌, if◌then◌else◌, length,
}

-- `strchr`: the text behind the byte that it finds
abbrev pub behind : ℕ → List ℕ → Option (List ℕ)
behind c [] = none
behind c (x ∷ s) = if x == c then some s else behind c s

-- The text from the first byte on in which a text differs from the key, and whether it has all of it
abbrev pub common : List ℕ → List ℕ → List ℕ × Bool
common [] p = (p, true)
common (x ∷ key) [] = ([], false)
common (x ∷ key) (y ∷ p) = if y == x then common key p else (y ∷ p, false)

-- The text up to the next '&', or its end
abbrev pub until_and : List ℕ → List ℕ
until_and [] = []
until_and (c ∷ s) = let rest = until_and s in if c == b'&' then [] else c ∷ rest

-- "Skip to next query"
abbrev pub skip_to_next : (List ℕ → Option (List ℕ)) → Option (List ℕ) → Option (List ℕ)
skip_to_next more none = some []
skip_to_next more (some p) = more p

abbrev pub compared : (List ℕ → Option (List ℕ)) → List ℕ × Bool → Option (List ℕ)
compared more ([], full) = some []
compared more (c ∷ s, false) = skip_to_next more (behind b'&' (c ∷ s))
compared more (c ∷ s, true) =
    if c == b'=' then some (until_and s) else skip_to_next more (behind b'&' (c ∷ s))

-- The loop of `FindQueryFromURI`
pub find_from : ℕ → List ℕ → List ℕ → Option (List ℕ)
find_from fuel key [] = some []
find_from zero key (c ∷ s) = none
find_from (suc fuel) key (c ∷ s) = compared (find_from fuel key) (common key (c ∷ s))

pub started : List ℕ → Option (List ℕ) → Option (List ℕ)
started key none = some []
started key (some query) = find_from (length query) key query

-- `FindQueryFromURI`
pub find_query_from_uri : List ℕ → List ℕ → Option (List ℕ)
find_query_from_uri uri key = started key (behind b'?' uri)
