-- ===== src/HttpResponse/Chunks.antt =====
-- evpp/evpphttp/http_response.cc: the body of a chunked response against a reader of the chunked
-- transfer coding.
use evpp.Base.{
  ℕ, zero, suc, ◌+◌, ◌-◌, ◌*◌, List, [], ◌∷◌, ◌++◌, Option, none, some, ◌==◌, ◌&&◌, if◌then◌else◌,
  ◌>>=◌, leb, take, drop,
}
use evpp.HttpResponse.{HttpResponse, Output, sends, closes}

-- The bytes that are sent.
abbrev pub wire : List Output → List ℕ
wire [] = []
wire (sends s ∷ os) = s ++ wire os
wire (closes ∷ os) = wire os

abbrev pub hex_value : ℕ → ℕ
hex_value c = if leb b'a' c then c - b'a' + 10 else c - b'0'

-- The text behind a line end.
abbrev pub after_crlf : List ℕ → Option (List ℕ)
after_crlf (c ∷ d ∷ s) = if (c == 13) && (d == 10) then some s else none
after_crlf _ = none

-- A size in hexadecimal and its line end.
read_size : ℕ → List ℕ → Option (ℕ × List ℕ)
read_size acc [] = none
read_size acc (c ∷ s) =
    let rest = read_size (acc * 16 + hex_value c) s in
    if c == 13 then (after_crlf (c ∷ s) >>= λ t. some (acc, t)) else rest

abbrev pub with_chunk : List ℕ → Option (List ℕ) → Option (List ℕ)
with_chunk chunk none = none
with_chunk chunk (some rest) = some (chunk ++ rest)

-- Nothing follows the last chunk.
abbrev pub end_of : List ℕ → Option (List ℕ)
end_of [] = some []
end_of (c ∷ s) = none

abbrev pub next_chunk : (List ℕ → Option (List ℕ)) → Option (ℕ × List ℕ) → Option (List ℕ)
next_chunk more none = none
next_chunk more (some (zero, t)) = after_crlf t >>= end_of
next_chunk more (some (suc n, t)) =
    after_crlf (drop (suc n) t) >>= λ s. with_chunk (take (suc n) t) (more s)

-- The body of a message in the chunked coding, of fewer chunks than `fuel`, and nothing behind it.
pub dechunk : ℕ → List ℕ → Option (List ℕ)
dechunk zero s = none
dechunk (suc fuel) s = next_chunk (dechunk fuel) (read_size 0 s)

-- What follows the only chunk.
abbrev last_chunk : List ℕ
last_chunk = 13 ∷ 10 ∷ b'0' ∷ 13 ∷ 10 ∷ 13 ∷ 10 ∷ []
