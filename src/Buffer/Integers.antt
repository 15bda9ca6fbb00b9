-- ===== src/Buffer/Integers.antt =====
-- The integers of evpp/buffer.h in network order. An intN_t is the N-bit pattern that represents
-- it; the host is little-endian, as the source supposes where it swaps unconditionally.
use evpp.Base.{
  ℕ, zero, suc, ◌+◌, ◌*◌, ◌/◌, ◌%◌, ◌^◌, ◌<◌, ◌≤◌, ◌≡◌, refl, sym, ap, ◌∙◌, List, [], ◌∷◌, ◌++◌,
  Option, some, ◌>>=◌, arith, length, drop, take, ◌-◌, length-append, take-length_append,
  drop-length_append,
}
use evpp.Base.Memory.{copy_out, copy_out-some, take-window}
use evpp.Buffer.{Buffer, write, prepend, skip}
use evpp.Buffer.Bounds.{IsValid, Fits, skip-IsValid}
use evpp.Buffer.Room.{contents, length-contents}
use evpp.Buffer.Contents.{write_lem, prepend_lem}
use evpp.Buffer.Taking.{contents-skip}

-- The memory of a little-endian value of `n` bytes, and the value of such memory.
le_bytes : ℕ → ℕ → List ℕ
le_bytes zero x = []
le_bytes (suc n) x = (x % 256) ∷ le_bytes n (x / 256)

of_le : List ℕ → ℕ
of_le [] = 0
of_le (b ∷ bs) = b + 256 * of_le bs

-- `x & mask` followed by a shift, for the byte at `2 ^ k`
abbrev byte_at : ℕ → ℕ → ℕ
byte_at x k = x / 2 ^ k % 256

-- `evppbswap_64`, and `htonl`, `htons` on a little-endian host
bswap64 : ℕ → ℕ
bswap64 x =
    byte_at x 56
    + byte_at x 48 * 2 ^ 8
    + byte_at x 40 * 2 ^ 16
    + byte_at x 32 * 2 ^ 24
    + byte_at x 24 * 2 ^ 32
    + byte_at x 16 * 2 ^ 40
    + byte_at x 8 * 2 ^ 48
    + byte_at x 0 * 2 ^ 56

bswap32 : ℕ → ℕ
bswap32 x = byte_at x 24 + byte_at x 16 * 2 ^ 8 + byte_at x 8 * 2 ^ 16 + byte_at x 0 * 2 ^ 24

bswap16 : ℕ → ℕ
bswap16 x = byte_at x 8 + byte_at x 0 * 2 ^ 8

append_int64 : Buffer → ℕ → Option Buffer
append_int64 b x = write b (le_bytes 8 (bswap64 x))

append_int32 : Buffer → ℕ → Option Buffer
append_int32 b x = write b (le_bytes 4 (bswap32 x))

append_int16 : Buffer → ℕ → Option Buffer
append_int16 b x = write b (le_bytes 2 (bswap16 x))

append_int8 : Buffer → ℕ → Option Buffer
append_int8 b x = write b (le_bytes 1 x)

prepend_int64 : Buffer → ℕ → Option Buffer
prepend_int64 b x = prepend b (le_bytes 8 (bswap64 x))

prepend_int32 : Buffer → ℕ → Option Buffer
prepend_int32 b x = prepend b (le_bytes 4 (bswap32 x))

prepend_int16 : Buffer → ℕ → Option Buffer
prepend_int16 b x = prepend b (le_bytes 2 (bswap16 x))

prepend_int8 : Buffer → ℕ → Option Buffer
prepend_int8 b x = prepend b (le_bytes 1 x)

peek_int64 : Buffer → Option ℕ
peek_int64 b = do image ← copy_out b.storage b.read_index 8; some (bswap64 (of_le image))

peek_int32 : Buffer → Option ℕ
peek_int32 b = do image ← copy_out b.storage b.read_index 4; some (bswap32 (of_le image))

peek_int16 : Buffer → Option ℕ
peek_int16 b = do image ← copy_out b.storage b.read_index 2; some (bswap16 (of_le image))

peek_int8 : Buffer → Option ℕ
peek_int8 b = do image ← copy_out b.storage b.read_index 1; some (of_le image)

read_int64 : Buffer → Option (ℕ × Buffer)
read_int64 b = do x ← peek_int64 b; some (x, skip b 8)

read_int32 : Buffer → Option (ℕ × Buffer)
read_int32 b = do x ← peek_int32 b; some (x, skip b 4)

read_int16 : Buffer → Option (ℕ × Buffer)
read_int16 b = do x ← peek_int16 b; some (x, skip b 2)

read_int8 : Buffer → Option (ℕ × Buffer)
read_int8 b = do x ← peek_int8 b; some (x, skip b 1)

-- The four widths.
pub data Width : Type 0 where
  int64 int32 int16 int8 : Width

abbrev pub bytes : Width → ℕ
bytes int64 = 8
bytes int32 = 4
bytes int16 = 2
bytes int8 = 1

pub append_int : Width → Buffer → ℕ → Option Buffer
append_int int64 = append_int64
append_int int32 = append_int32
append_int int16 = append_int16
append_int int8 = append_int8

pub prepend_int : Width → Buffer → ℕ → Option Buffer
prepend_int int64 = prepend_int64
prepend_int int32 = prepend_int32
prepend_int int16 = prepend_int16
prepend_int int8 = prepend_int8

pub read_int : Width → Buffer → Option (ℕ × Buffer)
read_int int64 = read_int64
read_int int32 = read_int32
read_int int16 = read_int16
read_int int8 = read_int8

-- The most significant byte first.
unfoldable pub be_bytes : ℕ → ℕ → List ℕ
be_bytes zero x = []
be_bytes (suc n) x = (x / 256 ^ n % 256) ∷ be_bytes n x

swap64_bytes : (x : ℕ) → x < 2 ^ 64 → le_bytes 8 (bswap64 x) ≡ be_bytes 8 x
unfolding le_bytes bswap64 be_bytes
swap64_bytes x h = ground arith

swap32_bytes : (x : ℕ) → x < 2 ^ 32 → le_bytes 4 (bswap32 x) ≡ be_bytes 4 x
unfolding le_bytes bswap32 be_bytes
swap32_bytes x h = ground arith

swap64_back : (x : ℕ) → x < 2 ^ 64 → bswap64 (of_le (be_bytes 8 x)) ≡ x
unfolding of_le bswap64 be_bytes
swap64_back x h = omega arith

swap32_back : (x : ℕ) → x < 2 ^ 32 → bswap32 (of_le (be_bytes 4 x)) ≡ x
unfolding of_le bswap32 be_bytes
swap32_back x h = omega arith

swap16_bytes : (x : ℕ) → x < 2 ^ 16 → le_bytes 2 (bswap16 x) ≡ be_bytes 2 x
unfolding le_bytes bswap16 be_bytes
swap16_bytes x h = ground arith

swap16_back : (x : ℕ) → x < 2 ^ 16 → bswap16 (of_le (be_bytes 2 x)) ≡ x
unfolding of_le bswap16 be_bytes
swap16_back x h = omega arith

swap8_bytes : (x : ℕ) → x < 2 ^ 8 → le_bytes 1 x ≡ be_bytes 1 x
unfolding le_bytes be_bytes
swap8_bytes x h = ground arith

swap8_back : (x : ℕ) → x < 2 ^ 8 → of_le (be_bytes 1 x) ≡ x
unfolding of_le be_bytes
swap8_back x h = omega arith

length-be_bytes : (n x : ℕ) → length (be_bytes n x) ≡ n
unfolding be_bytes
length-be_bytes zero x = refl
length-be_bytes (suc n) x = ap suc (length-be_bytes n x)

-- Adding bytes `d` succeeds and puts them behind, or in front of, the unread bytes.
abbrev pub Appends : Buffer → List ℕ → Option Buffer → Type 0
Appends b d r = (b' : Buffer) × (r ≡ some b') × IsValid b' × (contents b' ≡ contents b ++ d)

abbrev pub Prepends : Buffer → List ℕ → Option Buffer → Type 0
Prepends b d r = (b' : Buffer) × (r ≡ some b') × IsValid b' × (contents b' ≡ d ++ contents b)

-- Reading succeeds, yields `x` and leaves `rest`.
abbrev pub Reads : List ℕ → ℕ → Option (ℕ × Buffer) → Type 0
Reads rest x r = (b' : Buffer) × (r ≡ some (x, b')) × IsValid b' × (contents b' ≡ rest)

module _ {b : Buffer} (v : IsValid b) where
  append_bytes :
      (n x : ℕ) (d : List ℕ) → d ≡ be_bytes n x → Fits b n → Appends b (be_bytes n x) (write b d)
  append_bytes n x d e f = rw e (write_lem (be_bytes n x) v (omega (arith, length-be_bytes n x)))

  prepend_bytes :
      (n x : ℕ) (d : List ℕ)
      → d ≡ be_bytes n x
      → n ≤ b.read_index
      → Prepends b (be_bytes n x) (prepend b d)
  prepend_bytes n x d e f = rw e (prepend_lem (be_bytes n x) v (omega (arith, length-be_bytes n x)))

  -- `AppendInt64`, `AppendInt32`, `AppendInt16` and `AppendInt8` append the value's bytes, most
  -- significant first.
  pub append_int_lem :
      (w : Width) (x : ℕ)
      → x < 2 ^ (8 * bytes w)
      → Fits b (bytes w)
      → Appends b (be_bytes (bytes w) x) (append_int w b x)
  unfolding append_int append_int64 append_int32 append_int16 append_int8
  append_int_lem int64 x h f = append_bytes 8 x _ (swap64_bytes x h) f
  append_int_lem int32 x h f = append_bytes 4 x _ (swap32_bytes x h) f
  append_int_lem int16 x h f = append_bytes 2 x _ (swap16_bytes x h) f
  append_int_lem int8 x h f = append_bytes 1 x _ (swap8_bytes x h) f

  -- The `PrependInt` functions put them in front, if the space in front holds them.
  pub prepend_int_lem :
      (w : Width) (x : ℕ)
      → x < 2 ^ (8 * bytes w)
      → bytes w ≤ b.read_index
      → Prepends b (be_bytes (bytes w) x) (prepend_int w b x)
  unfolding prepend_int prepend_int64 prepend_int32 prepend_int16 prepend_int8
  prepend_int_lem int64 x h f = prepend_bytes 8 x _ (swap64_bytes x h) f
  prepend_int_lem int32 x h f = prepend_bytes 4 x _ (swap32_bytes x h) f
  prepend_int_lem int16 x h f = prepend_bytes 2 x _ (swap16_bytes x h) f
  prepend_int_lem int8 x h f = prepend_bytes 1 x _ (swap8_bytes x h) f

  module _ (n x : ℕ) (rest : List ℕ) (e : contents b ≡ be_bytes n x ++ rest) where
    front_length : n ≤ b.write_index - b.read_index
    front_length = omega (
      arith,
      length-contents v,
      ap length e,
      length-append (be_bytes n x) rest,
      length-be_bytes n x,
    )

    copy_front : copy_out b.storage b.read_index n ≡ some (be_bytes n x)
    copy_front =
        copy_out-some b.storage b.read_index n (omega (arith, front_length))
        ∙ ap some (
            sym (take-window b.storage b.read_index (b.write_index - b.read_index) n front_length)
            ∙ ap (take n) e
            ∙ ap (λ k. take k (be_bytes n x ++ rest)) (sym (length-be_bytes n x))
            ∙ take-length_append (be_bytes n x) rest)

    taken : Reads rest x (some (x, skip b n))
    taken = (
      skip b n,
      refl,
      skip-IsValid n v,
      contents-skip n v
          ∙ ap (drop n) e
          ∙ ap (λ k. drop k (be_bytes n x ++ rest)) (sym (length-be_bytes n x))
          ∙ drop-length_append (be_bytes n x) rest,
    )

  -- `ReadInt64` to `ReadInt8` take the value back from its bytes, most significant first, and
  -- leave the bytes behind them.
  pub read_int_lem :
      (w : Width) (x : ℕ) (rest : List ℕ)
      → x < 2 ^ (8 * bytes w)
      → contents b ≡ be_bytes (bytes w) x ++ rest
      → Reads rest x (read_int w b)
  unfolding read_int read_int64 read_int32 read_int16 read_int8 peek_int64 peek_int32 peek_int16
      peek_int8
  read_int_lem int64 x rest h e = rw (copy_front 8 x rest e, swap64_back x h) (taken 8 x rest e)
  read_int_lem int32 x rest h e = rw (copy_front 4 x rest e, swap32_back x h) (taken 4 x rest e)
  read_int_lem int16 x rest h e = rw (copy_front 2 x rest e, swap16_back x h) (taken 2 x rest e)
  read_int_lem int8 x rest h e = rw (copy_front 1 x rest e, swap8_back x h) (taken 1 x rest e)
