-- ===== src/Sockets/Tests.antt =====
-- Each theorem about evpp/sockets.cc at an address of its own.
use evpp.Base.{ℕ, ◌≡◌, refl, List, [], ◌∷◌, ◌++◌, Option, some, arith}
use evpp.Base.Decimal.{pos}
use evpp.Sockets.{last_byte, Family, inet, inet6, Pton, address, split_host_port}
use evpp.Sockets.Splitting.{joined, split_host_port_lem}

-- "10.0.0.7"
abbrev host : List ℕ
host = b'1' ∷ b'0' ∷ b'.' ∷ b'0' ∷ b'.' ∷ b'0' ∷ b'.' ∷ b'7' ∷ []

-- "::1"
abbrev loopback : List ℕ
loopback = b':' ∷ b':' ∷ b'1' ∷ []

abbrev loopback_bytes : List ℕ
loopback_bytes = 0 ∷ 0 ∷ 0 ∷ 0 ∷ 0 ∷ 0 ∷ 0 ∷ 0 ∷ 0 ∷ 0 ∷ 0 ∷ 0 ∷ 0 ∷ 0 ∷ 0 ∷ 1 ∷ []

-- The functions of the C library at these two addresses.
abbrev pton : Family → List ℕ → Pton
pton inet t = address (10 ∷ 0 ∷ 0 ∷ 7 ∷ [])
pton inet6 t = address loopback_bytes

abbrev ntop : Family → List ℕ → Option (List ℕ)
ntop inet a = some host
ntop inet6 a = some loopback

split_host_port_lem_example :
    (split_host_port (joined loopback 8080)
      ≡ some (some (record { host = loopback; port = pos 8080 })))
    × (split_host_port (joined (b'[' ∷ loopback ++ b']' ∷ []) 8080)
        ≡ some (some (record { host = loopback; port = pos 8080 })))
unfolding last_byte
split_host_port_lem_example = split_host_port_lem loopback b'1' 8080 refl refl refl (omega arith)
