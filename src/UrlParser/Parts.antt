-- ===== src/UrlParser/Parts.antt =====
-- evpp/httpc/url_parser.cc: a URL with all parts, and its text.
use mathlib.Core.Bool.{true≢false}
use evpp.Base.{
  ℕ, ◌^◌, ◌<◌, ◌≡◌, refl, sym, ap, ◌∙◌, Bool, true, false, ◌||◌, List, [], ◌∷◌, ◌++◌, map, none,
  some, ◌==◌, if◌then◌else◌, arith,
}
use evpp.Base.Decimal.{pos, has, to_string, to_string-head, has-to_string, atoi, atoi-to_string}
use evpp.Base.Dictionary.{to_lower}
use evpp.UrlParser.{
  equal_key, is_question_or_sharp, find_if, strip_prot_end, search, schema_part, port_part,
  path_part, query_part, with_path, with_port, with_host, with_schema, parse,
}

-- No byte passes.
abbrev pub none_of : (ℕ → Bool) → List ℕ → Bool
none_of p [] = true
none_of p (c ∷ s) = if p c then false else none_of p s

if_true : (b c : Bool) → (if b then false else c) ≡ true → (b ≡ false) × (c ≡ true)
if_true false c h = (refl, h)
if_true true c h = absurd (true≢false (sym h))

find_if-none_of :
    (p : ℕ → Bool) (s : List ℕ) (c : ℕ) (t : List ℕ)
    → none_of p s ≡ true
    → p c ≡ true
    → find_if p (s ++ c ∷ t) ≡ (s, c ∷ t)
find_if-none_of p [] c t n h = rw h refl
find_if-none_of p (x ∷ s) c t n h =
    let (e, rest) = if_true (p x) (none_of p s) n in rw e rw (find_if-none_of p s c t rest h) refl

none_of-equal_key :
    (s : List ℕ)
    → has b':' s ≡ false
    → has b'/' s ≡ false
    → has b'?' s ≡ false
    → has b'#' s ≡ false
    → none_of equal_key s ≡ true
none_of-equal_key [] a b c d = refl
none_of-equal_key (x ∷ s) a b c d = ground (arith, none_of-equal_key s)

strip-none : (x : ℕ) (s : List ℕ) → (x == b':') ≡ false → strip_prot_end (x ∷ s) ≡ none
strip-none x [] h = refl
strip-none x (y ∷ []) h = refl
strip-none x (y ∷ z ∷ s) h = rw h refl

neither : (a b : Bool) → (a || b) ≡ false → (a ≡ false) × (b ≡ false)
neither false b h = (refl, h)
neither true b h = absurd (true≢false h)

search-schema :
    (s t : List ℕ) → has b':' s ≡ false → search (s ++ b':' ∷ b'/' ∷ b'/' ∷ t) ≡ some (s, t)
unfolding search
search-schema [] t h = refl
search-schema (x ∷ s) t h =
    let (e, rest) = neither (x == b':') (has b':' s) h in
    rw (strip-none x (s ++ b':' ∷ b'/' ∷ b'/' ∷ t) e, search) rw (search-schema s t rest) refl

schema_part-schema :
    (s t : List ℕ)
    → has b':' s ≡ false
    → schema_part (s ++ (b':' ∷ b'/' ∷ b'/' ∷ t)) ≡ (map to_lower s, t)
unfolding schema_part
schema_part-schema s t h = rw (search-schema s t h, schema_part) refl

path_part-path :
    (path query : List ℕ)
    → none_of is_question_or_sharp path ≡ true
    → path_part (b'/' ∷ (path ++ (b'?' ∷ query))) ≡ (b'/' ∷ path, b'?' ∷ query)
unfolding path_part
path_part-path path query p = rw (find_if-none_of is_question_or_sharp path b'?' query p refl) refl

port_part-digits :
    (s rest : List ℕ) (d : ℕ) (ds : List ℕ)
    → s ≡ d ∷ ds
    → port_part (b':' ∷ (s ++ rest)) ≡ (atoi (s ++ rest), (find_if equal_key (s ++ rest)).1)
unfolding port_part
port_part-digits s rest d ds e = rw e refl

digits-none_of : (port : ℕ) → none_of equal_key (to_string port) ≡ true
digits-none_of port =
    none_of-equal_key (to_string port) (has-to_string b':' port refl) (has-to_string b'/' port refl)
      (has-to_string b'?' port refl) (has-to_string b'#' port refl)

port_part-to_string :
    (port : ℕ) (rest : List ℕ)
    → port < 2 ^ 31
    → port_part (b':' ∷ (to_string port ++ b'/' ∷ rest)) ≡ (pos port, b'/' ∷ rest)
port_part-to_string port rest h =
    let (d, ds, e) = to_string-head port in
    port_part-digits (to_string port) (b'/' ∷ rest) d ds e
    ∙ rw (find_if-none_of equal_key (to_string port) b'/' rest (digits-none_of port) refl) rw
        (atoi-to_string port (b'/' ∷ rest) (omega arith) refl) refl

-- schema://host:port/path?query
abbrev pub url_text : List ℕ → List ℕ → ℕ → List ℕ → List ℕ → List ℕ
url_text schema host port path query =
    schema
    ++ (b':'
        ∷ b'/'
        ∷ b'/'
        ∷ (host ++ (b':' ∷ (to_string port ++ (b'/' ∷ (path ++ (b'?' ∷ query)))))))

-- The parts of a URL that has all of them are read back from its text, the schema and the host in
-- lower case, if none of them has a byte that would end it early.
pub parse-url_text :
    (schema host : List ℕ) (port : ℕ) (path query : List ℕ)
    → has b':' schema ≡ false
    → none_of equal_key host ≡ true
    → port < 2 ^ 31
    → none_of is_question_or_sharp path ≡ true
    → parse (url_text schema host port path query) ≡ record {
      schema = map to_lower schema;
      host = map to_lower host;
      port = pos port;
      path = b'/' ∷ path;
      query = query;
    }
unfolding parse query_part
parse-url_text schema host port path query s h small p =
    let behind_port : List ℕ = path ++ (b'?' ∷ query) in
    let behind_host : List ℕ = to_string port ++ (b'/' ∷ behind_port) in
    ap with_schema (schema_part-schema schema (host ++ (b':' ∷ behind_host)) s)
    ∙ ap (with_host (map to_lower schema)) (find_if-none_of equal_key host b':' behind_host h refl)
    ∙ ap (with_port (map to_lower schema) (map to_lower host))
        (port_part-to_string port behind_port small)
    ∙ ap (with_path (map to_lower schema) (map to_lower host) (pos port))
        (path_part-path path query p)
