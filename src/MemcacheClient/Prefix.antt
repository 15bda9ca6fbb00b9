-- ===== src/MemcacheClient/Prefix.antt =====
-- apps/evmc/binary_codec.cc, DecodePrefixGetPacket: where the loop over the entries ends.
use evpp.Base.{ℕ, zero, suc, ◌+◌, ◌-◌, ◌^◌, ◌≤◌, ◌<◌, ◌≡◌, refl, List, [], ◌∷◌, some, le→ltb, arith}
use evpp.MemcacheClient.BinaryCodec.{
  ResponseHeader, decode_entries, decode_prefix_get_packet, sub_u32,
}

no_entries :
    (fuel size buf_size pos : ℕ) (pv : List ℕ)
    → size ≤ pos
    → decode_entries fuel size buf_size pv pos ≡ some []
unfolding decode_entries
no_entries zero size buf_size pos pv h = refl
no_entries (suc fuel) size buf_size pos pv h = rw (le→ltb pos size h) refl

-- The positions are counted from the start of the key, and the loop ends at the length of the entries
-- alone: an answer whose entries together are no longer than its key gives none of them.
pub decode_prefix_get_packet-lost :
    (resp : ResponseHeader) (buf_size k : ℕ) (pv key : List ℕ)
    → resp.bodylen < 2 ^ 32
    → resp.keylen + resp.extlen ≤ resp.bodylen
    → resp.bodylen - (resp.keylen + resp.extlen) ≤ resp.keylen
    → decode_prefix_get_packet resp buf_size pv (k ∷ key) ≡ some []
unfolding decode_prefix_get_packet
decode_prefix_get_packet-lost resp buf_size k pv key fits whole few =
    no_entries (buf_size + 1) (sub_u32 (sub_u32 resp.bodylen resp.keylen) resp.extlen) buf_size
      resp.keylen pv (omega arith)
