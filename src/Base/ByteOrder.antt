-- ===== src/Base/ByteOrder.antt =====
-- Numbers of 16 and 32 bits in memory on a host that stores the lowest byte first, and in the order of
-- the network.
use Prim.Native.Nat.{ℕ, ◌+◌, ◌*◌, ◌/◌, ◌%◌, ◌^◌, ◌<◌}
use mathlib.Core.Path.{◌≡◌}
use native.Mathlib.Omega.{arith}

-- A number as the host loads it from its bytes
abbrev pub load16 : ℕ → ℕ → ℕ
load16 a b = a + b * 256

abbrev pub load32 : ℕ → ℕ → ℕ → ℕ → ℕ
load32 a b c d = a + b * 256 + c * 2 ^ 16 + d * 2 ^ 24

-- `htons` and `ntohs`
abbrev pub htons : ℕ → ℕ
htons n = n % 256 * 256 + n / 256 % 256

-- `htonl` and `ntohl`
abbrev pub htonl : ℕ → ℕ
htonl n = n % 256 * 2 ^ 24 + n / 2 ^ 8 % 256 * 2 ^ 16 + n / 2 ^ 16 % 256 * 2 ^ 8 + n / 2 ^ 24 % 256

-- A number in the order of the network
abbrev pub net16 : ℕ → ℕ → ℕ
net16 a b = a * 256 + b

abbrev pub net32 : ℕ → ℕ → ℕ → ℕ → ℕ
net32 a b c d = ((a * 256 + b) * 256 + c) * 256 + d

pub load16-id : (n : ℕ) → n < 2 ^ 16 → load16 (n % 256) (n / 256 % 256) ≡ n
load16-id n h = omega arith

pub load32-id :
    (n : ℕ)
    → n < 2 ^ 32
    → load32 (n % 256) (n / 2 ^ 8 % 256) (n / 2 ^ 16 % 256) (n / 2 ^ 24 % 256) ≡ n
load32-id n h = omega arith

pub htons-load16 : (a b : ℕ) → a < 256 → b < 256 → htons (load16 a b) ≡ net16 a b
htons-load16 a b h k = omega arith

pub htonl-load32 :
    (a b c d : ℕ) → a < 256 → b < 256 → c < 256 → d < 256 → htonl (load32 a b c d) ≡ net32 a b c d
htonl-load32 a b c d h i j k = omega arith

pub net16-htons : (n : ℕ) → n < 2 ^ 16 → net16 (htons n % 256) (htons n / 256 % 256) ≡ n
net16-htons n h = omega arith

pub net32-htonl :
    (n : ℕ)
    → n < 2 ^ 32
    → net32
        (htonl n % 256)
        (htonl n / 2 ^ 8 % 256)
        (htonl n / 2 ^ 16 % 256)
        (htonl n / 2 ^ 24 % 256)
      ≡ n
net32-htonl n h = omega arith
