-- ===== src/MemcacheCommand.antt =====
-- apps/evmc/command.h and command.cc: the bytes of the requests. The opcodes of memcached's protocol are
-- arguments; its header is a struct of 24 bytes, laid out as in 3rdparty/memcached/protocol_binary.h,
-- on a host that stores the lowest byte of a number first. `none` is an access outside a vector.
pub mod Wire
mod Tests
use evpp.Base.{
  ℕ, zero, suc, ◌+◌, ◌/◌, ◌%◌, ◌^◌, Bool, true, false, List, [], ◌∷◌, ◌++◌, Option, none, some,
  ◌>>=◌, if◌then◌else◌, length, replicate,
}
use evpp.Base.ByteOrder.{htons, htonl}

-- `protocol_binary_request_header`, as far as it is set and not the same in each request
pub record RequestHeader : Type 0 where
  pub opcode : ℕ
  pub keylen : ℕ
  pub extlen : ℕ
  pub vbucket : ℕ
  pub opaque : ℕ
  pub bodylen : ℕ

pub record Protocol : Type 0 where
  pub set : ℕ
  pub delete : ℕ
  pub get : ℕ
  pub getk : ℕ
  pub getkq : ℕ
  pub pgetk : ℕ
  pub pgetkq : ℕ

-- Four bytes in network order
abbrev pub int32 : ℕ → List ℕ
int32 n = (n / 2 ^ 24 % 256) ∷ (n / 2 ^ 16 % 256) ∷ (n / 2 ^ 8 % 256) ∷ (n % 256) ∷ []

abbrev pub is_empty : List (List ℕ) → Bool
is_empty [] = true
is_empty (k ∷ ks) = false

-- `memcpy` of the struct: the magic byte of a request, the raw datatype and no `cas`
pub header_bytes : RequestHeader → List ℕ
header_bytes h =
    128
    ∷ h.opcode % 256
    ∷ h.keylen % 256
    ∷ h.keylen / 256 % 256
    ∷ h.extlen % 256
    ∷ 0
    ∷ h.vbucket % 256
    ∷ h.vbucket / 256 % 256
    ∷ h.bodylen % 256
    ∷ h.bodylen / 2 ^ 8 % 256
    ∷ h.bodylen / 2 ^ 16 % 256
    ∷ h.bodylen / 2 ^ 24 % 256
    ∷ h.opaque % 256
    ∷ h.opaque / 2 ^ 8 % 256
    ∷ h.opaque / 2 ^ 16 % 256
    ∷ h.opaque / 2 ^ 24 % 256
    ∷ 0
    ∷ 0
    ∷ 0
    ∷ 0
    ∷ 0
    ∷ 0
    ∷ 0
    ∷ 0
    ∷ []

-- The header of a request that has a key and nothing else
pub key_header : ℕ → ℕ → ℕ → List ℕ → RequestHeader
key_header opcode vbucket id key = record {
  opcode = opcode;
  keylen = htons (length key % 2 ^ 16);
  extlen = 0;
  vbucket = htons vbucket;
  opaque = id;
  bodylen = htonl (length key % 2 ^ 32);
}

-- The loop of `PacketRequest`: a request for each key, the last one with the opcode that is answered
-- in any case
pub packet_request : ℕ → ℕ → ℕ → List (List ℕ) → List ℕ → Option (List ℕ)
packet_request quiet loud id [] vbuckets = some []
packet_request quiet loud id (k ∷ ks) [] = none
packet_request quiet loud id (k ∷ ks) (v ∷ vs) = packet_request quiet loud id ks vs >>= λ rest.
    some (header_bytes (key_header (if is_empty ks then loud else quiet) v id k) ++ (k ++ rest))

module _ (p : Protocol) where
  abbrev pub key_request : ℕ → ℕ → ℕ → List ℕ → List ℕ
  key_request opcode vbucket id key = header_bytes (key_header opcode vbucket id key) ++ key

  -- `SetCommand::RequestBuffer`
  pub set_header : ℕ → ℕ → List ℕ → List ℕ → RequestHeader
  set_header vbucket id key value = record {
    opcode = p.set;
    keylen = htons (length key % 2 ^ 16);
    extlen = 8;
    vbucket = htons vbucket;
    opaque = id;
    bodylen = htonl ((8 + length key + length value) % 2 ^ 32);
  }

  pub set_request : ℕ → ℕ → List ℕ → List ℕ → ℕ → ℕ → List ℕ
  set_request vbucket id key value flags expire =
      header_bytes (set_header vbucket id key value)
      ++ (int32 flags ++ (int32 expire ++ (key ++ value)))

  -- `RequestBuffer` of a `GetCommand`, a `PrefixGetCommand` and a `RemoveCommand`
  pub get_request : ℕ → ℕ → List ℕ → List ℕ
  get_request vbucket id key = key_request p.get vbucket id key

  pub prefix_get_request : ℕ → ℕ → List ℕ → List ℕ
  prefix_get_request vbucket id key = key_request p.pgetk vbucket id key

  pub remove_request : ℕ → ℕ → List ℕ → List ℕ
  remove_request vbucket id key = key_request p.delete vbucket id key

  -- `RequestBuffer` of a `MultiGetCommand` and a `PrefixMultiGetCommand`
  pub multi_get_request : ℕ → List (List ℕ) → List ℕ → Option (List ℕ)
  multi_get_request id keys vbuckets = packet_request p.getkq p.getk id keys vbuckets

  pub prefix_multi_get_request : ℕ → List (List ℕ) → List ℕ → Option (List ℕ)
  prefix_multi_get_request id keys vbuckets = packet_request p.pgetkq p.pgetk id keys vbuckets

  -- `SerialMultiGetCommand::PacketRequests`
  pub packet_requests : ℕ → List (List ℕ) → Option (List ℕ)
  packet_requests id keys = packet_request p.getkq p.getk id keys (replicate (length keys) 0)
