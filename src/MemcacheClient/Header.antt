-- ===== src/MemcacheClient/Header.antt =====
-- apps/evmc/binary_codec.cc: the header of a response, read from the bytes that a server sends.
use evpp.Base.{ℕ, ◌/◌, ◌%◌, ◌^◌, ◌<◌, ◌≡◌, refl, ◌∙◌, List, [], ◌∷◌, ◌++◌, some, arith}
use evpp.Base.ByteOrder.{load16, load32, htons, htonl, load32-id, htons-load16, htonl-load32}
use evpp.MemcacheClient.BinaryCodec.{ResponseHeader, header_of, raw_header}

-- The 24 bytes of a header that a server sends: its numbers in the order of the network, and the id as
-- the client has stored it
abbrev pub encode : ResponseHeader → List ℕ
encode h =
    129
    ∷ h.opcode % 256
    ∷ h.keylen / 256 % 256
    ∷ h.keylen % 256
    ∷ h.extlen % 256
    ∷ 0
    ∷ h.status / 256 % 256
    ∷ h.status % 256
    ∷ h.bodylen / 2 ^ 24 % 256
    ∷ h.bodylen / 2 ^ 16 % 256
    ∷ h.bodylen / 2 ^ 8 % 256
    ∷ h.bodylen % 256
    ∷ h.opaque % 256
    ∷ h.opaque / 2 ^ 8 % 256
    ∷ h.opaque / 2 ^ 16 % 256
    ∷ h.opaque / 2 ^ 24 % 256
    ∷ 0
    ∷ 0
    ∷ 0
    ∷ 0
    ∷ 0
    ∷ 0
    ∷ 0
    ∷ 0
    ∷ []

-- Every number of a header fits its field.
pub record InRange (h : ResponseHeader) : Type 0 where
  pub opcode : h.opcode < 256
  pub keylen : h.keylen < 2 ^ 16
  pub extlen : h.extlen < 256
  pub status : h.status < 2 ^ 16
  pub bodylen : h.bodylen < 2 ^ 32
  pub opaque : h.opaque < 2 ^ 32

swapped16 : (n : ℕ) → n < 2 ^ 16 → htons (load16 (n / 256 % 256) (n % 256)) ≡ n
swapped16 n h = omega (arith, htons-load16 (n / 256 % 256) (n % 256) (omega arith) (omega arith))

swapped32 :
    (n : ℕ)
    → n < 2 ^ 32
    → htonl (load32 (n / 2 ^ 24 % 256) (n / 2 ^ 16 % 256) (n / 2 ^ 8 % 256) (n % 256)) ≡ n
swapped32 n h =
    htonl-load32 (n / 2 ^ 24 % 256) (n / 2 ^ 16 % 256) (n / 2 ^ 8 % 256) (n % 256) (omega arith)
      (omega arith) (omega arith) (omega arith)
    ∙ omega arith

-- The client reads the header that the server has sent.
pub header_of-encode :
    (h : ResponseHeader) (s : List ℕ) → InRange h → header_of (encode h ++ s) ≡ some h
unfolding header_of raw_header
header_of-encode h s r =
    rw (swapped16 h.keylen r.keylen) rw (swapped16 h.status r.status) rw
      (swapped32 h.bodylen r.bodylen) rw (load32-id h.opaque r.opaque) rw (small h.opcode r.opcode)
      rw (small h.extlen r.extlen) refl
  where
    small : (n : ℕ) → n < 256 → n % 256 ≡ n
    small n k = omega arith
