-- ===== src/QueryString/Lookup.antt =====
-- evpp/http/context.cc: the query of a URI as a list of keys and values.
use mathlib.Core.Bool.{true≢false}
use evpp.Base.{
  ℕ, zero, suc, ◌≤◌, ◌≡◌, refl, ap, ◌∙◌, Bool, true, false, ◌||◌, List, [], ◌∷◌, ◌++◌, Option, none,
  some, ◌==◌, if◌then◌else◌, length, length-append, All, arith, inl, inr, Bool-cases,
}
use evpp.Base.Decimal.{has}
use evpp.Base.Dictionary.{is_same}
use evpp.QueryString.{
  behind, common, until_and, skip_to_next, compared, find_from, started, find_query_from_uri,
}

-- k1=v1&k2=v2
abbrev pub encode : List (List ℕ × List ℕ) → List ℕ
encode [] = []
encode ((k, v) ∷ []) = k ++ (b'=' ∷ v)
encode ((k, v) ∷ q ∷ qs) = k ++ (b'=' ∷ (v ++ (b'&' ∷ encode (q ∷ qs))))

-- The value of the first pair with the key, or nothing
abbrev pub value_of : List ℕ → List (List ℕ × List ℕ) → List ℕ
value_of key [] = []
value_of key ((k, v) ∷ qs) = if is_same k key then v else value_of key qs

-- No '&' in either, and no '=' in the key
abbrev pub IsPair : List ℕ × List ℕ → Type 0
IsPair (k, v) = (has b'=' k ≡ false) × (has b'&' k ≡ false) × (has b'&' v ≡ false)

neither : (a b : Bool) → (a || b) ≡ false → (a ≡ false) × (b ≡ false)
neither false b h = (refl, h)
neither true b h = absurd (true≢false h)

behind-skip : (c : ℕ) (s t : List ℕ) → has c s ≡ false → behind c (s ++ t) ≡ behind c t
behind-skip c [] t h = refl
behind-skip c (x ∷ s) t h =
    let (e, rest) = neither (x == c) (has c s) h in rw e (behind-skip c s t rest)

until_and-whole : (v : List ℕ) → has b'&' v ≡ false → until_and v ≡ v
until_and-whole [] h = refl
until_and-whole (x ∷ v) h =
    let (e, rest) = neither (x == b'&') (has b'&' v) h in rw e (ap (◌∷◌ x) (until_and-whole v rest))

until_and-and : (v t : List ℕ) → has b'&' v ≡ false → until_and (v ++ (b'&' ∷ t)) ≡ v
until_and-and [] t h = refl
until_and-and (x ∷ v) t h =
    let (e, rest) = neither (x == b'&') (has b'&' v) h in rw e (ap (◌∷◌ x) (until_and-and v t rest))

flip_test : (x y : ℕ) → (x == y) ≡ false → (y == x) ≡ false
flip_test x y h = ground arith

-- One pair, whatever follows
compared-pair :
    (more : List ℕ → Option (List ℕ)) (key k w : List ℕ)
    → has b'=' key ≡ false
    → has b'=' k ≡ false
    → has b'&' k ≡ false
    → compared more (common key (k ++ (b'=' ∷ w)))
      ≡ (if is_same k key then some (until_and w) else skip_to_next more (behind b'&' w))
compared-pair more [] [] w a b c = refl
compared-pair more [] (y ∷ k) w a b c =
    let (e, rest) = neither (y == b'=') (has b'=' k) b in
    rw e (ap (skip_to_next more) (behind-skip b'&' (y ∷ k) (b'=' ∷ w) c))
compared-pair more (x ∷ key) [] w a b c =
    rw (flip_test x b'=' (neither (x == b'=') (has b'=' key) a).0) refl
compared-pair more (x ∷ key) (y ∷ k) w a b c = elim (Bool-cases (y == x)) [
  | inl e ↦ rw e (
      compared-pair more key k w (neither (x == b'=') (has b'=' key) a).1
        (neither (y == b'=') (has b'=' k) b).1 (neither (y == b'&') (has b'&' k) c).1)
  | inr e ↦ rw e (ap (skip_to_next more) (behind-skip b'&' (y ∷ k) (b'=' ∷ w) c))
]

-- A round of the loop at a pair
find_from-pair :
    (fuel : ℕ) (key k w : List ℕ)
    → has b'=' key ≡ false
    → has b'=' k ≡ false
    → has b'&' k ≡ false
    → find_from (suc fuel) key (k ++ (b'=' ∷ w)) ≡ (
        if is_same k key
        then some (until_and w)
        else skip_to_next (find_from fuel key) (behind b'&' w))
unfolding find_from
find_from-pair fuel key [] w a b c = compared-pair (find_from fuel key) key [] w a b c
find_from-pair fuel key (y ∷ k) w a b c = compared-pair (find_from fuel key) key (y ∷ k) w a b c

behind-none : (c : ℕ) (s : List ℕ) → has c s ≡ false → behind c s ≡ none
behind-none c [] h = refl
behind-none c (x ∷ s) h =
    let (e, rest) = neither (x == c) (has c s) h in rw e (behind-none c s rest)

find_from-encode :
    (fuel : ℕ) (key : List ℕ) (qs : List (List ℕ × List ℕ))
    → length qs ≤ fuel
    → has b'=' key ≡ false
    → All IsPair qs
    → find_from fuel key (encode qs) ≡ some (value_of key qs)
unfolding find_from
find_from-encode fuel key [] h a p = refl
find_from-encode zero key ((k, v) ∷ qs) h a p = absurd (omega arith)
find_from-encode (suc fuel) key ((k, v) ∷ []) h a ((b, c, d), p) =
    find_from-pair fuel key k v a b c
    ∙ rw (until_and-whole v d) rw (behind-none b'&' v d) (chosen (is_same k key))
  where
    chosen : (t : Bool) → (if t then some v else some []) ≡ some (if t then v else [])
    chosen true = refl
    chosen false = refl
find_from-encode (suc fuel) key ((k, v) ∷ q ∷ qs) h a ((b, c, d), p) =
    find_from-pair fuel key k (v ++ (b'&' ∷ encode (q ∷ qs))) a b c
    ∙ rw (until_and-and v (encode (q ∷ qs)) d) rw (behind-skip b'&' v (b'&' ∷ encode (q ∷ qs)) d)
        (chosen (is_same k key) (find_from-encode fuel key (q ∷ qs) (omega arith) a p))
  where
    chosen :
        (t : Bool)
        → find_from fuel key (encode (q ∷ qs)) ≡ some (value_of key (q ∷ qs))
        → (if t then some v else find_from fuel key (encode (q ∷ qs)))
          ≡ some (if t then v else value_of key (q ∷ qs))
    chosen true e = refl
    chosen false e = e

length-encode : (qs : List (List ℕ × List ℕ)) → length qs ≤ length (encode qs)
length-encode [] = omega arith
length-encode ((k, v) ∷ []) = omega (arith, length-append k (b'=' ∷ v))
length-encode ((k, v) ∷ q ∷ qs) = omega (
  arith,
  length-append k (b'=' ∷ (v ++ (b'&' ∷ encode (q ∷ qs)))),
  length-append v (b'&' ∷ encode (q ∷ qs)),
  length-encode (q ∷ qs),
)

-- On a URI whose path has no '?', with a query of pairs that have no '&' in key or value and no '=' in
-- the key, FindQueryFromURI returns for a key without '=' the value of the first pair with that key,
-- and the empty text if there is none; a key that is the start of another is not taken for it.
pub find_query_from_uri-encode :
    (path key : List ℕ) (qs : List (List ℕ × List ℕ))
    → has b'?' path ≡ false
    → has b'=' key ≡ false
    → All IsPair qs
    → find_query_from_uri (path ++ (b'?' ∷ encode qs)) key ≡ some (value_of key qs)
unfolding find_query_from_uri started
find_query_from_uri-encode path key qs h a p =
    ap (started key) (behind-skip b'?' path (b'?' ∷ encode qs) h)
    ∙ find_from-encode (length (encode qs)) key qs (length-encode qs) a p

abbrev pub Ends : Option (List ℕ) → Type 0
Ends o = (v : List ℕ) × (o ≡ some v)

skip_to_next-Ends :
    (more : List ℕ → Option (List ℕ)) (c : ℕ) (s : List ℕ) (n : ℕ)
    → length s ≤ n
    → ((t : List ℕ) → suc (length t) ≤ n → Ends (more t))
    → Ends (skip_to_next more (behind c s))
skip_to_next-Ends more c [] n h ends = ([], refl)
skip_to_next-Ends more c (x ∷ s) n h ends = elim (Bool-cases (x == c)) [
  | inl e ↦ rw e (ends s h)
  | inr e ↦ rw e (skip_to_next-Ends more c s n (omega arith) ends)
]

length-common : (key p : List ℕ) → length (common key p).0 ≤ length p
length-common [] p = omega arith
length-common (x ∷ key) [] = omega arith
length-common (x ∷ key) (y ∷ p) = elim (Bool-cases (y == x)) [
  | inl e ↦ rw e (omega (arith, length-common key p))
  | inr e ↦ rw e (omega arith)
]

compared-Ends :
    (more : List ℕ → Option (List ℕ)) (r : List ℕ × Bool) (n : ℕ)
    → length r.0 ≤ n
    → ((t : List ℕ) → suc (length t) ≤ n → Ends (more t))
    → Ends (compared more r)
compared-Ends more ([], full) n h ends = ([], refl)
compared-Ends more (c ∷ s, false) n h ends = skip_to_next-Ends more b'&' (c ∷ s) n h ends
compared-Ends more (c ∷ s, true) n h ends = elim (Bool-cases (c == b'=')) [
  | inl e ↦ rw e (until_and s, refl)
  | inr e ↦ rw e (skip_to_next-Ends more b'&' (c ∷ s) n h ends)
]

find_from-Ends : (fuel : ℕ) (key p : List ℕ) → length p ≤ fuel → Ends (find_from fuel key p)
unfolding find_from
find_from-Ends fuel key [] h = ([], refl)
find_from-Ends zero key (c ∷ s) h = absurd (omega arith)
find_from-Ends (suc fuel) key (c ∷ s) h =
    compared-Ends (find_from fuel key) (common key (c ∷ s)) (length (c ∷ s))
      (length-common key (c ∷ s)) (λ t less. find_from-Ends fuel key t (omega arith))

-- The loop of FindQueryFromURI ends on every URI and key, in as many rounds as the query has bytes.
pub find_query_from_uri-Ends : (uri key : List ℕ) → Ends (find_query_from_uri uri key)
unfolding find_query_from_uri started
find_query_from_uri-Ends uri key = elim (behind b'?' uri) as (λ o. Ends (started key o)) [
  | none ↦ ([], refl)
  | some query ↦ find_from-Ends (length query) key query (omega arith)
]
