-- ===== src/MemcacheClient/BinaryCodec.antt =====
-- apps/evmc/binary_codec.cc, with PopRunningCommand of memcache_client.cc: the packets of the
-- responses. The opcodes of the protocol are arguments; a buffer is the list of its unread bytes, and
-- `none` is a read behind them. The host stores the lowest byte of a number first.
use evpp.Base.{
  ℕ, zero, suc, ◌+◌, ◌-◌, ◌*◌, ◌%◌, ◌^◌, List, [], ◌∷◌, ◌++◌, Option, none, some, ◌||◌, ◌==◌, ◌>>=◌,
  if◌then◌else◌, leb, ltb, length, take, drop,
}
use evpp.Base.ByteOrder.{load16, load32, htons, htonl}
use evpp.MemcacheClient.{
  Command, Outcome, Effect, leaves, one_response, prefix_response, set_done, remove_done, get_done,
  multi_get_done, prefix_get_done, MemcacheClient,
}

-- `protocol_binary_response_header`, as far as it is read
pub record ResponseHeader : Type 0 where
  pub opcode : ℕ
  pub opaque : ℕ
  pub status : ℕ
  pub keylen : ℕ
  pub extlen : ℕ
  pub bodylen : ℕ

pub record Protocol : Type 0 where
  pub set : ℕ
  pub delete : ℕ
  pub get : ℕ
  pub getk : ℕ
  pub getkq : ℕ
  pub pgetk : ℕ
  pub pgetkq : ℕ

-- `kHeaderLen`
abbrev pub header_len : ℕ
header_len = 24

-- The struct at the start of a buffer, as `3rdparty/memcached/protocol_binary.h` lays it out
unfoldable pub raw_header : List ℕ → Option ResponseHeader
raw_header
      (magic ∷ op ∷ k0 ∷ k1 ∷ ext ∷ kind ∷ s0 ∷ s1 ∷ b0 ∷ b1 ∷ b2 ∷ b3 ∷ o0 ∷ o1 ∷ o2 ∷ o3 ∷ rest) =
    some (record {
      opcode = op;
      opaque = load32 o0 o1 o2 o3;
      status = load16 s0 s1;
      keylen = load16 k0 k1;
      extlen = ext;
      bodylen = load32 b0 b1 b2 b3;
    })
raw_header _ = none

-- `resp` of `OnCodecMessage`: `ntohl` and `ntohs` of three fields
unfoldable pub header_of : List ℕ → Option ResponseHeader
header_of buf = raw_header buf >>= λ h.
    some (record h { status = htons h.status; keylen = htons h.keylen; bodylen = htonl h.bodylen })

-- `std::string(pv + pos, len)`
abbrev pub slice : ℕ → ℕ → List ℕ → Option (List ℕ)
slice pos len pv = if leb (pos + len) (length pv) then some (take len (drop pos pv)) else none

abbrev pub sub_u32 : ℕ → ℕ → ℕ
sub_u32 a b = (a + 2 ^ 32 - b) % 2 ^ 32

-- `ntohl(*(const uint32_t*)(pv + pos))`
abbrev pub int_at : ℕ → List ℕ → Option ℕ
int_at pos pv = elim (drop pos pv) [
  | a ∷ b ∷ c ∷ d ∷ s ↦ some (((a * 256 + b) * 256 + c) * 256 + d)
  | _ ↦ none
]

abbrev pub add_u32 : ℕ → ℕ → ℕ
add_u32 a b = (a + b) % 2 ^ 32

-- One entry of `DecodePrefixGetPacket` from `pos` on, with the position behind it; `some none` is a
-- `break`. `pv` is the memory from behind the header and the extras on, `buf_size` the size of the
-- whole buffer.
pub decode_entry : ℕ → List ℕ → ℕ → Option (Option (ℕ × List ℕ × List ℕ))
decode_entry buf_size pv pos =
    if leb buf_size pos || leb buf_size (add_u32 pos 4)
    then some none
    else (int_at pos pv >>= λ klen.
        if leb buf_size (add_u32 (pos + 4) klen)
        then some none
        else (slice (pos + 4) klen pv >>= λ rkey.
            let pos' = pos + 4 + klen in
            if leb buf_size pos' || leb buf_size (add_u32 pos' 4)
            then some none
            else (int_at pos' pv >>= λ vlen.
                if leb buf_size (add_u32 (pos' + 4) vlen)
                then some none
                else (slice (pos' + 4) vlen pv >>= λ rval.
                    some (some (pos' + 4 + vlen, rkey, rval))))))

-- The loop of `DecodePrefixGetPacket`: the entries that it emplaces. An entry has 8 bytes at least.
unfoldable pub decode_entries : ℕ → ℕ → ℕ → List ℕ → ℕ → Option (List (List ℕ × List ℕ))
decode_entries zero size buf_size pv pos = some []
decode_entries (suc fuel) size buf_size pv pos =
    if ltb pos size
    then (decode_entry buf_size pv pos >>= λ o. elim o [
      | none ↦ some []
      | some (pos', rkey, rval) ↦
          (decode_entries fuel size buf_size pv pos' >>= λ rest. some ((rkey, rval) ∷ rest))
    ])
    else some []

-- `DecodePrefixGetPacket` of a key: `key.empty()` is the answer for all keys.
unfoldable pub decode_prefix_get_packet :
    ResponseHeader → ℕ → List ℕ → List ℕ → Option (List (List ℕ × List ℕ))
decode_prefix_get_packet resp buf_size pv [] = some []
decode_prefix_get_packet resp buf_size pv (k ∷ key) =
    decode_entries (buf_size + 1) (sub_u32 (sub_u32 resp.bodylen resp.keylen) resp.extlen) buf_size
      pv resp.keylen

abbrev pub Answer : Type 0
Answer = Option (MemcacheClient × List Effect)

-- `PopRunningCommand`, and what becomes of the command
unfoldable pub pop_with : Command → List Command → MemcacheClient → Option Outcome → Answer
pop_with c cs m none = none
pop_with c cs m (some o) = some (record m { running = cs }, leaves c o ∷ [])

-- A response that leaves the command in its place
unfoldable pub tell_one : Command → ℕ → MemcacheClient → Option (List ℕ × List ℕ) → Answer
tell_one c status m none = none
tell_one c status m (some (key, value)) = some (m, one_response c status key value ∷ [])

unfoldable pub tell_prefix :
    Command → ℕ → MemcacheClient → Option (List ℕ × List (List ℕ × List ℕ)) → Answer
tell_prefix c status m none = none
tell_prefix c status m (some (key, entries)) = some (m, prefix_response c status key entries ∷ [])

-- The key of a response and its value; `pv` is the memory from behind the header and the extras on.
pub key_and_value : ResponseHeader → List ℕ → Option (List ℕ × List ℕ)
key_and_value resp pv = slice 0 resp.keylen pv >>= λ key.
    slice resp.keylen (sub_u32 (sub_u32 resp.bodylen resp.keylen) resp.extlen) pv >>= λ value.
    some (key, value)

pub key_and_entries : ResponseHeader → ℕ → List ℕ → Option (List ℕ × List (List ℕ × List ℕ))
key_and_entries resp buf_size pv = slice 0 resp.keylen pv >>= λ key.
    decode_prefix_get_packet resp buf_size pv key >>= λ entries. some (key, entries)

module _ (p : Protocol) where
  -- The `switch` of `OnResponsePacket`, for the command `c` in front of `cs`
  unfoldable pub on_opcode :
      ResponseHeader → ℕ → List ℕ → Command → List Command → MemcacheClient → Answer
  on_opcode resp buf_size pv c cs m =
      if resp.opcode == p.set
      then pop_with c cs m (some (set_done resp.status))
      else if resp.opcode == p.delete
      then pop_with c cs m (some (remove_done resp.status))
      else if resp.opcode == p.get
      then pop_with c cs m
          (slice 0 (sub_u32 resp.bodylen resp.extlen) pv >>= λ v. some (get_done resp.status v))
      else if resp.opcode == p.getk
      then pop_with c cs m
          (key_and_value resp pv >>= λ (k, v). some (multi_get_done resp.status k v))
      else if resp.opcode == p.getkq
      then tell_one c resp.status m (key_and_value resp pv)
      else if resp.opcode == p.pgetk
      then pop_with c cs m
          (key_and_entries resp buf_size pv >>= λ (k, es). some (prefix_get_done resp.status k es))
      else if resp.opcode == p.pgetkq
      then tell_prefix c resp.status m (key_and_entries resp buf_size pv)
      else some (m, [])

  -- `OnResponsePacket`, without the `Retrieve` at its end
  unfoldable pub answered : ResponseHeader → List ℕ → List Command → MemcacheClient → Answer
  answered resp buf [] m = some (m, [])
  answered resp buf (c ∷ cs) m =
      if resp.opaque == c.id
      then on_opcode resp (length buf) (drop (header_len + resp.extlen) buf) c cs m
      else some (m, [])

  unfoldable pub on_response_packet : ResponseHeader → List ℕ → MemcacheClient → Answer
  on_response_packet resp buf m = answered resp buf m.running m

  -- `OnCodecMessage`: what is left of the buffer, the client and the effects. The fuel is one round
  -- for each packet.
  unfoldable pub on_codec_message :
      ℕ → List ℕ → MemcacheClient → Option (List ℕ × MemcacheClient × List Effect)
  on_codec_message zero buf m = if leb header_len (length buf) then none else some (buf, m, [])
  on_codec_message (suc fuel) buf m =
      if leb header_len (length buf)
      then (header_of buf >>= λ resp.
          if leb (resp.bodylen + header_len) (length buf)
          then (on_response_packet resp buf m >>= λ (m', es).
              on_codec_message fuel (drop (resp.bodylen + header_len) buf) m'
              >>= λ (rest, m'', es'). some (rest, m'', es ++ es'))
          else some (buf, m, []))
      else some (buf, m, [])
