-- ===== src/MemcacheCommand/Wire.antt =====
-- apps/evmc/command.cc: the bytes of the requests against a reader of the protocol.
use evpp.Base.{
  ℕ, zero, suc, ◌+◌, ◌%◌, ◌^◌, ◌≤◌, ◌<◌, ◌≡◌, refl, List, [], ◌∷◌, ◌++◌, Option, none, some, ◌==◌,
  ◌&&◌, ◌>>=◌, if◌then◌else◌, length, length-append, take, drop, take-length_append,
  drop-length_append, take-all, drop-all, arith,
}
use native.Mathlib.Nat.{mod-eq_of_lt}
use evpp.Base.ByteOrder.{htons, htonl, net16, net32, load32, net16-htons, net32-htonl, load32-id}
use evpp.MemcacheCommand.{
  RequestHeader, Protocol, int32, is_empty, header_bytes, key_header, set_header, set_request,
}

-- A request as a server sees it: its header, the extras, the key and the value
pub record Request : Type 0 where
  pub header : RequestHeader
  pub extras : List ℕ
  pub key : List ℕ
  pub value : List ℕ

abbrev pub parts : RequestHeader → List ℕ → Request
parts h body = record {
  header = h;
  extras = take h.extlen body;
  key = take h.keylen (drop h.extlen body);
  value = drop h.keylen (drop h.extlen body);
}

-- The header of a request, its numbers in the order of the network. The id is not converted: the
-- server sends it back as it is.
pub read_header : List ℕ → Option (RequestHeader × List ℕ)
read_header
      (magic ∷ op ∷ k0 ∷ k1 ∷ ext ∷ kind ∷ v0 ∷ v1 ∷ b0 ∷ b1 ∷ b2 ∷ b3 ∷ o0 ∷ o1 ∷ o2 ∷ o3 ∷ c0 ∷ c1
        ∷ c2 ∷ c3 ∷ c4 ∷ c5 ∷ c6 ∷ c7 ∷ s) =
    if (magic == 128) && (kind == 0)
    then some (
      record {
        opcode = op;
        keylen = net16 k0 k1;
        extlen = ext;
        vbucket = net16 v0 v1;
        opaque = load32 o0 o1 o2 o3;
        bodylen = net32 b0 b1 b2 b3;
      },
      s,
    )
    else none
read_header _ = none

-- As many requests as a number says, and nothing behind them
pub read_requests : ℕ → List ℕ → Option (List Request)
read_requests zero [] = some []
read_requests zero (x ∷ s) = none
read_requests (suc n) s = read_header s >>= λ (h, t).
    read_requests n (drop h.bodylen t) >>= λ rs. some (parts h (take h.bodylen t) ∷ rs)

-- A request for a key, as a server should see it
abbrev pub keyed : ℕ → ℕ → ℕ → List ℕ → Request
keyed opcode v id k = record {
  header = record {
    opcode = opcode;
    keylen = length k;
    extlen = 0;
    vbucket = v;
    opaque = id;
    bodylen = length k;
  };
  extras = [];
  key = k;
  value = [];
}

-- What a server should see of the keys
abbrev pub asked : ℕ → ℕ → ℕ → List (List ℕ × ℕ) → List Request
asked quiet loud id [] = []
asked quiet loud id ((k, v) ∷ []) = keyed loud v id k ∷ []
asked quiet loud id ((k, v) ∷ q ∷ qs) = keyed quiet v id k ∷ asked quiet loud id (q ∷ qs)

abbrev pub keys : List (List ℕ × ℕ) → List (List ℕ)
keys [] = []
keys ((k, v) ∷ qs) = k ∷ keys qs

abbrev pub vbuckets : List (List ℕ × ℕ) → List ℕ
vbuckets [] = []
vbuckets ((k, v) ∷ qs) = v ∷ vbuckets qs

-- A key whose length and vbucket fit the header
abbrev pub Fits : List ℕ × ℕ → Type 0
Fits (k, v) = (length k < 2 ^ 16) × (v < 2 ^ 16)

-- Opcodes and an id that fit the header
abbrev pub Codes : ℕ → ℕ → ℕ → Type 0
Codes quiet loud id = (quiet < 256) × (loud < 256) × (id < 2 ^ 32)

small : (n k : ℕ) → n < k → n % k ≡ n
small n k h = mod-eq_of_lt h

-- A server reads the numbers that the client has converted.
read_header-header_bytes :
    (op k ext v id b : ℕ) (s : List ℕ)
    → op < 256
    → k < 2 ^ 16
    → ext < 256
    → v < 2 ^ 16
    → id < 2 ^ 32
    → b < 2 ^ 32
    → read_header (
        header_bytes (record {
          opcode = op;
          keylen = htons (k % 2 ^ 16);
          extlen = ext;
          vbucket = htons v;
          opaque = id;
          bodylen = htonl (b % 2 ^ 32);
        })
        ++ s)
      ≡ some (
        record { opcode = op; keylen = k; extlen = ext; vbucket = v; opaque = id; bodylen = b },
        s,
      )
unfolding read_header header_bytes
read_header-header_bytes op k ext v id b s ho hk he hv hi hb =
    rw (small k (2 ^ 16) hk) rw (small b (2 ^ 32) hb) rw (small op 256 ho) rw (small ext 256 he) rw
      (net16-htons k hk) rw (net16-htons v hv) rw (net32-htonl b hb) rw (load32-id id hi) refl

abbrev bytes : ℕ → ℕ → ℕ → List (List ℕ × ℕ) → List ℕ
bytes quiet loud id [] = []
bytes quiet loud id ((k, v) ∷ qs) =
    header_bytes (key_header (if is_empty (keys qs) then loud else quiet) v id k)
    ++ (k ++ bytes quiet loud id qs)

-- It gets back the key and the value of a SET, with the flags and the time as its extras.
pub read-set_request :
    (p : Protocol) (v id : ℕ) (k value : List ℕ) (flags expire : ℕ)
    → p.set < 256
    → id < 2 ^ 32
    → Fits (k, v)
    → 8 + length k + length value < 2 ^ 32
    → read_requests 1 (set_request p v id k value flags expire)
      ≡ some (
          record {
            header = record {
              opcode = p.set;
              keylen = length k;
              extlen = 8;
              vbucket = v;
              opaque = id;
              bodylen = 8 + length k + length value;
            };
            extras = int32 flags ++ int32 expire;
            key = k;
            value = value;
          }
          ∷ [])
unfolding read_requests set_request set_header
read-set_request p v id k value flags expire ho hi (hk, hv) fits =
    let body : List ℕ = int32 flags ++ (int32 expire ++ (k ++ value)) in
    let n : ℕ = 8 + length k + length value in
    let long : length body ≤ n = omega (arith, length-append k value) in
    rw (read_header-header_bytes p.set (length k) 8 v id n body ho hk (omega arith) hv hi fits) rw
      (drop-all n body long) rw (take-all n body long) rw (take-length_append k value) rw
      (drop-length_append k value) refl
