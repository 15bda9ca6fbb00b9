-- ===== src/UrlParser.antt =====
-- evpp/httpc/url_parser.h and url_parser.cc: the parts of a URL.
pub mod Parts
use evpp.Base.{
  ℕ, Bool, true, false, ◌||◌, List, [], ◌∷◌, map, Option, none, some, ◌==◌, if◌then◌else◌,
}
use evpp.Base.Decimal.{ℤ, pos, atoi}
use evpp.Base.Dictionary.{to_lower}

pub record UrlParser : Type 0 where
  pub schema : List ℕ
  pub host : List ℕ
  pub port : ℤ
  pub path : List ℕ
  pub query : List ℕ

abbrev pub equal_key : ℕ → Bool
equal_key v = (v == b':') || ((v == b'/') || ((v == b'?') || (v == b'#')))

abbrev pub is_question_or_sharp : ℕ → Bool
is_question_or_sharp v = (v == b'?') || (v == b'#')

-- `find_if`: the text in front of the first byte that passes, and the text from it on.
abbrev pub find_if : (ℕ → Bool) → List ℕ → List ℕ × List ℕ
find_if p [] = ([], [])
find_if p (c ∷ s) = let (a, b) = find_if p s in if p c then ([], c ∷ s) else (c ∷ a, b)

-- The text behind "://", if it starts with that.
abbrev pub strip_prot_end : List ℕ → Option (List ℕ)
strip_prot_end (a ∷ b ∷ c ∷ s) =
    if a == b':' then (if b == b'/' then (if c == b'/' then some s else none) else none) else none
strip_prot_end _ = none

-- `search` of "://": the text in front of it, and behind it.
pub search : List ℕ → Option (List ℕ × List ℕ)
search [] = none
search (c ∷ s) = elim (strip_prot_end (c ∷ s)) [
  | some rest ↦ some ([], rest)
  | none ↦ elim (search s) [ none ↦ none | some (a, rest) ↦ some (c ∷ a, rest) ]
]

pub schema_part : List ℕ → List ℕ × List ℕ
schema_part url = elim (search url) [ none ↦ ([], url) | some (a, rest) ↦ (map to_lower a, rest) ]

pub port_part : List ℕ → ℤ × List ℕ
port_part [] = (pos 80, [])
port_part (c ∷ []) = if c == b':' then (pos 80, []) else (pos 80, c ∷ [])
port_part (c ∷ d ∷ s) =
    if c == b':' then (atoi (d ∷ s), (find_if equal_key (d ∷ s)).1) else (pos 80, c ∷ d ∷ s)

pub path_part : List ℕ → List ℕ × List ℕ
path_part [] = ([], [])
path_part (c ∷ s) = if c == b'/' then find_if is_question_or_sharp (c ∷ s) else ([], c ∷ s)

pub query_part : List ℕ → List ℕ
query_part [] = []
query_part (c ∷ s) = if c == b'?' then s else []

-- The steps of `parse`, each with the parts so far, the next one and the text behind it
abbrev pub with_path : List ℕ → List ℕ → ℤ → List ℕ × List ℕ → UrlParser
with_path schema host port (path, it) = record {
  schema = schema;
  host = host;
  port = port;
  path = path;
  query = query_part it;
}

abbrev pub with_port : List ℕ → List ℕ → ℤ × List ℕ → UrlParser
with_port schema host (port, it) = with_path schema host port (path_part it)

abbrev pub with_host : List ℕ → List ℕ × List ℕ → UrlParser
with_host schema (host, it) = with_port schema (map to_lower host) (port_part it)

abbrev pub with_schema : List ℕ × List ℕ → UrlParser
with_schema (schema, it) = with_host schema (find_if equal_key it)

-- `parse`
pub parse : List ℕ → UrlParser
parse url = with_schema (schema_part url)
