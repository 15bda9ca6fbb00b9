-- ===== src/Sockets/Splitting.antt =====
-- evpp/sockets.cc: `SplitHostPort` against the two forms of an address.
use evpp.Base.{
  ℕ, ◌-◌, ◌^◌, ◌<◌, ◌≡◌, refl, sym, ap, ◌∙◌, false, List, [], ◌∷◌, ◌++◌, append-nil, none, some,
  ◌==◌, length, length-append, take, take-length_append, arith,
}
use evpp.Base.Decimal.{
  pos, rsplit-some, to_string, has-to_string, to_string-head, atoi, atoi-to_string,
}
use evpp.Sockets.{last_byte, first_byte, HostPort, trim_trail, trim_both, at_colon, split_host_port}

last_byte-append : (s : List ℕ) (c : ℕ) → last_byte (s ++ c ∷ []) ≡ some c
unfolding last_byte
last_byte-append [] c = refl
last_byte-append (x ∷ []) c = refl
last_byte-append (x ∷ y ∷ s) c = last_byte-append (y ∷ s) c

-- The text of a host and a port.
abbrev pub joined : List ℕ → ℕ → List ℕ
joined host port = host ++ b':' ∷ to_string port

split-joined :
    (host : List ℕ) (port : ℕ)
    → port < 2 ^ 31
    → split_host_port (joined host port) ≡ trim_both (pos port) host
unfolding split_host_port at_colon
split-joined host port small =
    let (c, s, e) = to_string-head port in
    rw (rsplit-some b':' host (to_string port) (has-to_string b':' port refl))
      (ap (λ t. at_colon (some (host, t))) e ∙ ap (λ p. trim_both p host) (ap atoi (sym e) ∙ read))
  where
    read : atoi (to_string port) ≡ pos port
    read = ap atoi (sym (append-nil (to_string port))) ∙ atoi-to_string port [] (omega arith) refl

trim_trail-plain :
    (port : ℕ) (h : List ℕ) (c : ℕ)
    → last_byte h ≡ some c
    → (c == b']') ≡ false
    → trim_trail (pos port) h ≡ some (some (record { host = h; port = pos port }))
unfolding trim_trail
trim_trail-plain port h c e n = rw e rw n refl

-- `SplitHostPort` takes "host:port" apart at the last colon, and "[host]:port" also takes off the
-- brackets, for a host that is not empty, does not start with '[' and does not end in ']', and a port
-- below 2 ^ 31.
pub split_host_port_lem :
    (h : List ℕ) (c port : ℕ)
    → last_byte h ≡ some c
    → (c == b']') ≡ false
    → (first_byte h == b'[') ≡ false
    → port < 2 ^ 31
    → let hp : HostPort = record { host = h; port = pos port } in
      (split_host_port (joined h port) ≡ some (some hp))
      × (split_host_port (joined (b'[' ∷ h ++ b']' ∷ []) port) ≡ some (some hp))
unfolding trim_both
split_host_port_lem h c port e n f small = (
  split-joined h port small ∙ rw f (trim_trail-plain port h c e n),
  split-joined (b'[' ∷ h ++ b']' ∷ []) port small
      ∙ rw (last_byte-append (b'[' ∷ h) b']')
          (ap (trim_trail (pos port)) (inner h) ∙ trim_trail-plain port h c e n),
)
  where
    inner : (h : List ℕ) → take (length (b'[' ∷ h ++ b']' ∷ []) - 2) (h ++ b']' ∷ []) ≡ h
    inner h = ap (λ k. take k (h ++ b']' ∷ [])) (shorter h) ∙ take-length_append h (b']' ∷ [])
      where
        shorter : (h : List ℕ) → length (b'[' ∷ h ++ b']' ∷ []) - 2 ≡ length h
        shorter h = omega (arith, length-append h (b']' ∷ []))

-- Of an address without a host, ":port" or "[]:port", `SplitHostPort` reads the byte in front of an
-- empty text.
pub split_host_port-empty :
    (port : ℕ)
    → port < 2 ^ 31
    → (split_host_port (joined [] port) ≡ none)
      × (split_host_port (joined (b'[' ∷ b']' ∷ []) port) ≡ none)
unfolding trim_both trim_trail last_byte
split_host_port-empty port small =
    (split-joined [] port small, split-joined (b'[' ∷ b']' ∷ []) port small)
