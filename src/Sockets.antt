-- ===== src/Sockets.antt =====
-- evpp/sockets.cc: addresses as text and as the bytes of a `sockaddr_storage`, as Linux lays it out
-- on x86. `inet_pton` and `inet_ntop` are arguments.
pub mod Splitting
pub mod Roundtrip
mod Tests
use evpp.Base.{
  ℕ, zero, suc, ◌+◌, ◌-◌, ◌*◌, ◌/◌, ◌%◌, Bool, true, false, not, List, [], ◌∷◌, ◌++◌, Option, none,
  some, ◌&&◌, ◌==◌, if◌then◌else◌, ◌>>=◌, length, take, drop, get_elem?, replicate, is_none,
}
use evpp.Base.Memory.{window, patch}
use evpp.Base.Decimal.{ℤ, pos, negsuc, has, rsplit, to_string, atoi}

-- The last byte of a `std::string`; `none` for an empty one, of which `*rbegin()` is undefined.
pub last_byte : List ℕ → Option ℕ
last_byte [] = none
last_byte (x ∷ []) = some x
last_byte (x ∷ y ∷ s) = last_byte (y ∷ s)

-- `host[0]`, which is 0 at the end of the text
abbrev pub first_byte : List ℕ → ℕ
first_byte [] = 0
first_byte (x ∷ s) = x

-- What `SplitHostPort` sets on true.
pub record HostPort : Type 0 where
  pub host : List ℕ
  pub port : ℤ

-- "trim the trail ']'"
trim_trail : ℤ → List ℕ → Option (Option HostPort)
trim_trail port host = last_byte host >>= λ c.
    some (
      some (record { host = if c == b']' then take (length host - 1) host else host; port = port }))

-- "trim the leading '[' and trail ']'"
trim_both : ℤ → List ℕ → Option (Option HostPort)
trim_both port host =
    if first_byte host == b'['
    then (last_byte host >>= λ c.
        if c == b']' then trim_trail port (take (length host - 2) (drop 1 host)) else some none)
    else trim_trail port host

at_colon : Option (List ℕ × List ℕ) → Option (Option HostPort)
at_colon none = some none
at_colon (some (host, [])) = some none
at_colon (some (host, c ∷ s)) = trim_both (atoi (c ∷ s)) host

-- `SplitHostPort`: `none` is undefined, `some none` is false.
pub split_host_port : List ℕ → Option (Option HostPort)
split_host_port address = at_colon (rsplit b':' address)

pub data Family : Type 0 where
  inet inet6 : Family

-- What `inet_pton` returns: 0, -1, or 1 and the bytes of the address.
pub data Pton : Type 0 where
  no_address failed : Pton
  address : List ℕ → Pton

-- The two bytes of `AF_INET` and of `AF_INET6`.
abbrev pub family_bytes : Family → List ℕ
family_bytes inet = 2 ∷ 0 ∷ []
family_bytes inet6 = 10 ∷ 0 ∷ []

-- `htons` of an `int`: the high byte first
abbrev pub htons : ℤ → List ℕ
htons (pos n) = (n / 256 % 256) ∷ (n % 256) ∷ []
htons (negsuc n) = (255 - n / 256 % 256) ∷ (255 - n % 256) ∷ []

abbrev pub ntohs : List ℕ → ℕ
ntohs (h ∷ l ∷ s) = h * 256 + l
ntohs s = 0

-- `ss_family`
abbrev pub ss_family : List ℕ → ℕ
ss_family (l ∷ h ∷ s) = h * 256 + l
ss_family s = 0

-- `sizeof(sockaddr_storage)` zeros
abbrev pub empty_storage : List ℕ
empty_storage = replicate 128 0

abbrev pub family_of : List ℕ → Family
family_of host = if has b':' host then inet6 else inet

-- The address goes where a `sockaddr_in` has it, 4 bytes from the start, whatever the family.
filled : Family → ℤ → Pton → Bool × List ℕ
filled f port no_address = (false, empty_storage)
filled f port failed = (false, empty_storage)
filled f port (address a) =
    (true, patch (patch (patch empty_storage 4 a) 0 (family_bytes f)) 2 (htons port))

module _ (pton : Family → List ℕ → Pton) (ntop : Family → List ℕ → Option (List ℕ)) where
  parsed : Option HostPort → Bool × List ℕ
  parsed none = (false, empty_storage)
  parsed (some hp) = filled (family_of hp.host) hp.port (pton (family_of hp.host) hp.host)

  -- `ParseFromIPPort`
  pub parse_from_ip_port : List ℕ → Option (Bool × List ℕ)
  parse_from_ip_port a = split_host_port a >>= λ hp. some (parsed hp)

  pub with_port : ℕ → Option (List ℕ) → List ℕ
  with_port port none = []
  with_port port (some []) = []
  with_port port (some (c ∷ s)) = (c ∷ s) ++ b':' ∷ to_string port

  pub bracketed : Option (List ℕ) → Option (List ℕ)
  bracketed none = none
  bracketed (some s) = some (b'[' ∷ s ++ b']' ∷ [])

  -- `ToIPPort`
  pub to_ip_port : List ℕ → List ℕ
  to_ip_port ss =
      if ss_family ss == 2
      then with_port (ntohs (window ss 2 2)) (ntop inet (window ss 4 4))
      else if ss_family ss == 10
      then with_port (ntohs (window ss 2 2)) (bracketed (ntop inet6 (window ss 8 16)))
      else []

  pub or_empty : Option (List ℕ) → List ℕ
  or_empty none = []
  or_empty (some s) = s

  -- `ToIP`
  pub to_ip : List ℕ → List ℕ
  to_ip ss =
      if ss_family ss == 2
      then or_empty (ntop inet (window ss 4 4))
      else if ss_family ss == 10
      then or_empty (ntop inet6 (window ss 8 16))
      else []

-- `IsZeroAddress`
pub is_zero_address : List ℕ → Bool
is_zero_address [] = true
is_zero_address (x ∷ s) = let rest = is_zero_address s in if not (x == 0) then false else rest
