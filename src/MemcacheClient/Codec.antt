-- ===== src/MemcacheClient/Codec.antt =====
-- apps/evmc/binary_codec.cc: the answers to commands that wait in a row, read from one buffer.
use evpp.Base.{
  ℕ, zero, suc, ◌+◌, ◌^◌, ◌≤◌, ◌<◌, ◌≡◌, refl, sym, ap, ◌∙◌, false, List, [], ◌∷◌, ◌++◌,
  append_assoc, Option, some, ◌==◌, ==_refl, ◌>>=◌, leb, le→leb, length, length-append, drop,
  take-length_append, drop-length_append, All, arith,
}
use evpp.MemcacheClient.Header.{encode, InRange, header_of-encode}
use evpp.MemcacheClient.{
  Command, Outcome, Effect, leaves, set_done, remove_done, get_done, MemcacheClient,
}
use evpp.MemcacheClient.BinaryCodec.{
  Protocol, ResponseHeader, header_len, header_of, slice, sub_u32, pop_with, on_opcode, answered,
  on_response_packet, on_codec_message,
}

-- What a server answers to a SET, a DELETE and a GET; an answer may have extras in front of its text.
pub data Reply : Type 0 where
  stored removed found : ℕ → List ℕ → List ℕ → Reply

abbrev pub outcome : Reply → Outcome
outcome (stored status extras text) = set_done status
outcome (removed status extras text) = remove_done status
outcome (found status extras text) = get_done status text

abbrev pub opcode_of : Protocol → Reply → ℕ
opcode_of p (stored status extras text) = p.set
opcode_of p (removed status extras text) = p.delete
opcode_of p (found status extras text) = p.get

abbrev pub status_of : Reply → ℕ
status_of (stored status extras text) = status
status_of (removed status extras text) = status
status_of (found status extras text) = status

abbrev pub extras_of : Reply → List ℕ
extras_of (stored status extras text) = extras
extras_of (removed status extras text) = extras
extras_of (found status extras text) = extras

abbrev pub text_of : Reply → List ℕ
text_of (stored status extras text) = text
text_of (removed status extras text) = text
text_of (found status extras text) = text

abbrev pub header : Protocol → ℕ → Reply → ResponseHeader
header p id r = record {
  opcode = opcode_of p r;
  opaque = id;
  status = status_of r;
  keylen = 0;
  extlen = length (extras_of r);
  bodylen = length (extras_of r) + length (text_of r);
}

-- What the header of a reply says fits its fields.
abbrev pub IsShort : Command × Reply → Type 0
IsShort (c, r) =
    (length (extras_of r) + length (text_of r) < 2 ^ 32)
    × (length (extras_of r) < 256)
    × (status_of r < 2 ^ 16)
    × (c.id < 2 ^ 32)

abbrev pub effects : List (Command × Reply) → List Effect
effects [] = []
effects ((c, r) ∷ rs) = leaves c (outcome r) ∷ effects rs

abbrev pub commands : List (Command × Reply) → List Command → List Command
commands [] cs = cs
commands ((c, r) ∷ rs) cs = c ∷ commands rs cs

-- The opcodes of SET, DELETE and GET differ, and each is a byte.
pub record Differ (p : Protocol) : Type 0 where
  pub delete_set : (p.delete == p.set) ≡ false
  pub get_set : (p.get == p.set) ≡ false
  pub get_delete : (p.get == p.delete) ≡ false
  pub opcodes : (p.set < 256) × (p.delete < 256) × (p.get < 256)

-- The packets of some replies, and what comes behind them
abbrev pub wire : Protocol → List (Command × Reply) → List ℕ → List ℕ
wire p [] tail = tail
wire p ((c, r) ∷ rs) tail =
    encode (header p c.id r) ++ (extras_of r ++ (text_of r ++ wire p rs tail))

slice-prefix : (n : ℕ) (s t : List ℕ) → n ≡ length s → slice 0 n (s ++ t) ≡ some s
slice-prefix n s t h =
    ap (λ k. slice 0 k (s ++ t)) h
    ∙ rw (le→leb (0 + length s) (length (s ++ t)) (omega (arith, length-append s t)))
        (ap some (take-length_append s t))

drop-two : (k : ℕ) (a b s : List ℕ) → k ≡ length a + length b → drop k (a ++ (b ++ s)) ≡ s
drop-two k a b s h =
    ap (λ n. drop n (a ++ (b ++ s))) (h ∙ sym (length-append a b))
    ∙ ap (drop (length (a ++ b))) (sym (append_assoc a b s))
    ∙ drop-length_append (a ++ b) s

not_leb : (a b : ℕ) → a < b → leb b a ≡ false
not_leb a b h = ground arith

-- What a packet adds to what the packets behind it give
abbrev pub behind :
    List Effect
    → Option (List ℕ × MemcacheClient × List Effect)
    → Option (List ℕ × MemcacheClient × List Effect)
behind es o = o >>= λ (rest, m, es'). some (rest, m, es ++ es')

-- One round of the loop
codec-step :
    (p : Protocol) (fuel : ℕ) (buf : List ℕ) (m m' : MemcacheClient) (h : ResponseHeader)
    (es : List Effect)
    → header_of buf ≡ some h
    → h.bodylen + header_len ≤ length buf
    → on_response_packet p h buf m ≡ some (m', es)
    → on_codec_message p (suc fuel) buf m
      ≡ behind es (on_codec_message p fuel (drop (h.bodylen + header_len) buf) m')
unfolding on_codec_message
codec-step p fuel buf m m' h es e len r =
    rw (le→leb header_len (length buf) (omega arith)) rw e rw
      (le→leb (h.bodylen + header_len) (length buf) len) rw r refl

module _ (p : Protocol) (w : Differ p) where
  open w use {delete_set, get_set, get_delete, opcodes}

  on_opcode-reply :
      (r : Reply) (size : ℕ) (c : Command) (cs : List Command) (s : List ℕ) (m : MemcacheClient)
      → IsShort (c, r)
      → on_opcode p (header p c.id r) size (text_of r ++ s) c cs m
        ≡ some (record m { running = cs }, leaves c (outcome r) ∷ [])
  unfolding on_opcode pop_with
  on_opcode-reply (stored status extras text) size c cs s m h = rw (==_refl p.set) refl
  on_opcode-reply (removed status extras text) size c cs s m h =
      rw delete_set rw (==_refl p.delete) refl
  on_opcode-reply (found status extras text) size c cs s m h =
      rw get_set rw get_delete rw (==_refl p.get) (
        ap (λ v. pop_with c cs m (v >>= λ (t : List ℕ). some (get_done status t)))
          (slice-prefix (sub_u32 (length extras + length text) (length extras)) text s
            (omega (arith, h.0))))

  opcode_of-byte : (r : Reply) → opcode_of p r < 256
  opcode_of-byte (stored status extras text) = opcodes.0
  opcode_of-byte (removed status extras text) = opcodes.1
  opcode_of-byte (found status extras text) = opcodes.2

  header-InRange : (c : Command) (r : Reply) → IsShort (c, r) → InRange (header p c.id r)
  header-InRange c r (sum, ext, st, id) = record {
    opcode = opcode_of-byte r;
    keylen = omega arith;
    extlen = ext;
    status = st;
    bodylen = sum;
    opaque = id;
  }

  -- The packet of a reply, with `s` behind it
  abbrev framed : ℕ → Reply → List ℕ → List ℕ
  framed id r s = encode (header p id r) ++ (extras_of r ++ (text_of r ++ s))

  response-reply :
      (r : Reply) (c : Command) (cs : List Command) (s : List ℕ) (m : MemcacheClient)
      → m.running ≡ c ∷ cs
      → IsShort (c, r)
      → on_response_packet p (header p c.id r) (framed c.id r s) m
        ≡ some (record m { running = cs }, leaves c (outcome r) ∷ [])
  unfolding on_response_packet answered
  response-reply r c cs s m h short =
      ap (λ rs. answered p (header p c.id r) (framed c.id r s) rs m) h
      ∙ rw (==_refl c.id) (
          ap (λ pv. on_opcode p (header p c.id r) (length (framed c.id r s)) pv c cs m)
            (drop-two (header_len + length (extras_of r)) (encode (header p c.id r)) (extras_of r)
              (text_of r ++ s) refl)
          ∙ on_opcode-reply r (length (framed c.id r s)) c cs s m short)

  length-framed :
      (id : ℕ) (r : Reply) (s : List ℕ)
      → length (framed id r s) ≡ (length (extras_of r) + length (text_of r)) + header_len + length s
  length-framed id r s = omega (
    arith,
    length-append (encode (header p id r)) (extras_of r ++ (text_of r ++ s)),
    length-append (extras_of r) (text_of r ++ s),
    length-append (text_of r) s,
  )

  drop-framed :
      (id : ℕ) (r : Reply) (s : List ℕ)
      → drop (length (extras_of r) + length (text_of r) + header_len) (framed id r s) ≡ s
  drop-framed id r s =
      ap (drop (length (extras_of r) + length (text_of r) + header_len))
        (ap (λ t. encode (header p id r) ++ t) (sym (append_assoc (extras_of r) (text_of r) s)))
      ∙ drop-two (length (extras_of r) + length (text_of r) + header_len) (encode (header p id r))
          (extras_of r ++ text_of r) s (omega (arith, length-append (extras_of r) (text_of r)))

  -- The replies to the commands that have waited longest, of SET, DELETE and GET in any mixture, sent
  -- with headers of 24 bytes in the order of the network, are taken from one buffer each for its own
  -- command, in order and each once, with their status and value; what is behind them and shorter than
  -- a header stays. The numbers of each header fit their fields.
  pub on_codec_message-wire :
      (rs : List (Command × Reply)) (cs : List Command) (tail : List ℕ) (fuel : ℕ)
      (m : MemcacheClient)
      → m.running ≡ commands rs cs
      → All IsShort rs
      → length tail < header_len
      → length rs ≤ fuel
      → on_codec_message p fuel (wire p rs tail) m
        ≡ some (tail, record m { running = cs }, effects rs)
  unfolding on_codec_message
  on_codec_message-wire [] cs tail zero m h short small enough =
      rw (not_leb (length tail) header_len small)
        (ap (λ rs. some (tail, record m { running = rs }, [])) h)
  on_codec_message-wire [] cs tail (suc fuel) m h short small enough =
      rw (not_leb (length tail) header_len small)
        (ap (λ rs. some (tail, record m { running = rs }, [])) h)
  on_codec_message-wire (r ∷ rs) cs tail zero m h short small enough = absurd (omega arith)
  on_codec_message-wire ((c, r) ∷ rs) cs tail (suc fuel) m h (s, short) small enough =
      let m' : MemcacheClient = record m { running = commands rs cs } in
      codec-step p fuel (framed c.id r (wire p rs tail)) m m' (header p c.id r)
        (leaves c (outcome r) ∷ [])
        (header_of-encode (header p c.id r) (extras_of r ++ (text_of r ++ wire p rs tail))
          (header-InRange c r s))
        (omega (arith, length-framed c.id r (wire p rs tail)))
        (response-reply r c (commands rs cs) (wire p rs tail) m h s)
      ∙ ap (λ t. behind (leaves c (outcome r) ∷ []) (on_codec_message p fuel t m'))
          (drop-framed c.id r (wire p rs tail))
      ∙ ap (behind (leaves c (outcome r) ∷ []))
          (on_codec_message-wire rs cs tail fuel m' refl short small (omega arith))
