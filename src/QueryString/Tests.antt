-- ===== src/QueryString/Tests.antt =====
-- The theorem about evpp/http/context.cc at a URI of its own.
use evpp.Base.{ℕ, ◌≡◌, refl, List, [], ◌∷◌, ◌++◌, some}
use evpp.Base.Dictionary.{codes}
use evpp.QueryString.{find_query_from_uri}
use evpp.QueryString.Lookup.{encode, value_of, find_query_from_uri-encode}

-- A key that is a prefix of another one
abbrev pairs : List (List ℕ × List ℕ)
pairs = (codes "ab", codes "1") ∷ (codes "a", codes "10.0.0.7") ∷ (codes "a", []) ∷ []

find_query_from_uri-encode_example :
    find_query_from_uri (codes "/get" ++ (b'?' ∷ encode pairs)) (codes "a")
    ≡ some (value_of (codes "a") pairs)
find_query_from_uri-encode_example =
    find_query_from_uri-encode (codes "/get") (codes "a") pairs refl refl
      ((refl, refl, refl), ((refl, refl, refl), ((refl, refl, refl), tt)))
