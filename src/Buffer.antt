-- ===== src/Buffer.antt =====
-- evpp/buffer.h and evpp/buffer.cc: the byte buffer between a socket and its user. An assertion
-- of the source is compiled out, as in a release build: size_t arithmetic wraps, and an access
-- outside the storage is `none`. Bytes that `new char[n]` leaves indeterminate are 0 here.
pub mod Bounds
pub mod Room
pub mod Contents
pub mod Taking
pub mod Integers
pub mod Find
pub mod Cursor
pub mod Refine
mod Tests
use evpp.Base.{
  ℕ, suc, ◌+◌, ◌*◌, ◌%◌, ◌/◌, ◌^◌, Bool, true, false, List, [], ◌∷◌, ◌++◌, Option, none, some, ltb,
  leb, ◌==◌, if◌then◌else◌, ◌>>=◌, length, replicate, get_elem?, take, drop, ◌&&◌, add_size,
  sub_size,
}
use evpp.Base.Memory.{copy_out, copy_in}
use evpp.Errno.{Errno}

pub record Buffer : Type 0 where
  pub storage : List ℕ
  pub capacity : ℕ
  pub read_index : ℕ
  pub write_index : ℕ
  pub reserved_prepend_size : ℕ

abbrev pub cheap_prepend_size : ℕ
cheap_prepend_size = 8

abbrev pub initial_size : ℕ
initial_size = 1024

pub new : ℕ → ℕ → Buffer
new size prepend = record {
  storage = replicate (add_size prepend size) 0;
  capacity = add_size prepend size;
  read_index = prepend;
  write_index = prepend;
  reserved_prepend_size = prepend;
}

-- `length()`, `size()`
unfoldable pub buffer_length : Buffer → ℕ
buffer_length b = sub_size b.write_index b.read_index

pub writable_bytes : Buffer → ℕ
writable_bytes b = sub_size b.capacity b.write_index

pub prependable_bytes : Buffer → ℕ
prependable_bytes b = b.read_index

-- `total()` counts from the start of the storage.
pub total : Buffer → ℕ
total b = b.write_index

-- `data()`, `WriteBegin()` are `read_index` and `write_index` as offsets; the bytes they span:
pub to_string : Buffer → Option (List ℕ)
to_string b = copy_out b.storage b.read_index (buffer_length b)

pub truncate : Buffer → ℕ → Buffer
truncate b n =
    if n == 0
    then record b { read_index = b.reserved_prepend_size; write_index = b.reserved_prepend_size }
    else if ltb (add_size b.read_index n) b.write_index
    then record b { write_index = add_size b.read_index n }
    else b

pub reset : Buffer → Buffer
reset b = truncate b 0

pub skip : Buffer → ℕ → Buffer
skip b n =
    if ltb n (buffer_length b) then record b { read_index = add_size b.read_index n } else reset b

-- The new capacity: `(capacity_ << 1) + len`.
abbrev pub grown : ℕ → ℕ → ℕ
grown c n = add_size (c * 2 % 2 ^ 64) n

pub reallocate : Buffer → ℕ → Option Buffer
reallocate b n = do
  bytes ← copy_out b.storage b.read_index (buffer_length b)
  d ← copy_in (replicate (grown b.capacity n) 0) b.reserved_prepend_size bytes
  some (record b {
    storage = d;
    capacity = grown b.capacity n;
    read_index = b.reserved_prepend_size;
    write_index = add_size (buffer_length b) b.reserved_prepend_size;
  })

pub move_to_front : Buffer → Option Buffer
move_to_front b = do
  bytes ← copy_out b.storage b.read_index (buffer_length b)
  d ← copy_in b.storage b.reserved_prepend_size bytes
  some (record b {
    storage = d;
    read_index = b.reserved_prepend_size;
    write_index = add_size b.reserved_prepend_size (buffer_length b);
  })

pub grow : Buffer → ℕ → Option Buffer
grow b n =
    if ltb (add_size (writable_bytes b) (prependable_bytes b)) (add_size n b.reserved_prepend_size)
    then reallocate b n
    else move_to_front b

pub reserve : Buffer → ℕ → Option Buffer
reserve b n =
    if leb (add_size n b.reserved_prepend_size) b.capacity
    then some b
    else grow b (add_size n b.reserved_prepend_size)

pub ensure_writable_bytes : Buffer → ℕ → Option Buffer
ensure_writable_bytes b n = if ltb (writable_bytes b) n then grow b n else some b

-- `Write` and the `Append` overloads that call it
pub write : Buffer → List ℕ → Option Buffer
write b d = do
  b' ← ensure_writable_bytes b (length d)
  s ← copy_in b'.storage b'.write_index d
  some (record b' { storage = s; write_index = add_size b'.write_index (length d) })

pub prepend : Buffer → List ℕ → Option Buffer
prepend b d = do
  s ← copy_in b.storage (sub_size b.read_index (length d)) d
  some (record b { storage = s; read_index = sub_size b.read_index (length d) })

pub unwrite_bytes : Buffer → ℕ → Buffer
unwrite_bytes b n = record b { write_index = sub_size b.write_index n }

pub write_bytes : Buffer → ℕ → Buffer
write_bytes b n = record b { write_index = add_size b.write_index n }

pub unread_bytes : Buffer → ℕ → Buffer
unread_bytes b n = record b { read_index = sub_size b.read_index n }

pub set_read_index : Buffer → ℕ → Buffer
set_read_index b i = if ltb b.write_index i then b else record b { read_index = i }

pub reset_data : Buffer → Buffer
reset_data b = record b { read_index = b.reserved_prepend_size }

pub reset_begin : Buffer → Buffer
reset_begin b = record b { read_index = 0 }

-- `ToText` puts a NUL behind the data and does not count it.
pub to_text : Buffer → Option Buffer
to_text b = do b' ← write b (0 ∷ []); some (unwrite_bytes b' 1)

-- `NextAll`, `NextAllString`
pub next_all : Buffer → Option (List ℕ × Buffer)
next_all b = do bytes ← to_string b; some (bytes, reset b)

-- `Next`, `NextString`
pub next : Buffer → ℕ → Option (List ℕ × Buffer)
next b n =
    if ltb n (buffer_length b)
    then (copy_out b.storage b.read_index n >>= λ bytes.
        some (bytes, record b { read_index = add_size b.read_index n }))
    else next_all b

pub read_byte : Buffer → Option (ℕ × Buffer)
read_byte b = if buffer_length b == 0 then some (0, b) else do
  byte ← get_elem? b.storage b.read_index
  some (byte, record b { read_index = add_size b.read_index 1 })

-- `Shrink`: a fresh buffer of the right size, filled and swapped in.
pub shrink : Buffer → ℕ → Option Buffer
shrink b n = do
  bytes ← to_string b
  write (new (add_size (buffer_length b) n) cheap_prepend_size) bytes

-- What `readv` did: it failed with an errno, or it filled the two vectors with these bytes.
pub data ReadResult : Type 0 where
  failed : Errno → ReadResult
  got : List ℕ → ReadResult

abbrev pub extra_size : ℕ
extra_size = 65536

-- `ReadFromFD`: the kernel fills the free space first and `extrabuf` with the rest.
pub read_from_fd : Buffer → ReadResult → Option Buffer
read_from_fd b (failed errno) = some b
read_from_fd b (got bytes) = do
  s ← copy_in b.storage b.write_index (take (writable_bytes b) bytes)
  if leb (length bytes) (writable_bytes b)
      then some (record b { storage = s; write_index = add_size b.write_index (length bytes) })
      else write (record b { storage = s; write_index = b.capacity })
          (drop (writable_bytes b) bytes)

-- One more than an index that was found.
bump : Option ℕ → Option ℕ
bump none = none
bump (some i) = some (suc i)

-- `FindCRLF`: `std::search` for "\r\n"; the result is the offset from the start.
pub find_crlf_in : List ℕ → Option ℕ
find_crlf_in [] = none
find_crlf_in (x ∷ []) = none
find_crlf_in (x ∷ y ∷ s) =
    if (x == b'\r') && (y == b'\n') then some 0 else bump (find_crlf_in (y ∷ s))

-- `FindEOL`: `memchr` for '\n'.
pub find_eol_in : List ℕ → Option ℕ
find_eol_in [] = none
find_eol_in (x ∷ s) = if x == b'\n' then some 0 else bump (find_eol_in s)

pub find_crlf : Buffer → Option (Option ℕ)
find_crlf b = do bytes ← to_string b; some (find_crlf_in bytes)

pub find_eol : Buffer → Option (Option ℕ)
find_eol b = do bytes ← to_string b; some (find_eol_in bytes)

-- The overloads that start at `start`, an offset from `data()`.
pub find_crlf_from : Buffer → ℕ → Option (Option ℕ)
find_crlf_from b start = do
  bytes ← copy_out b.storage (add_size b.read_index start) (sub_size (buffer_length b) start)
  some (find_crlf_in bytes)

pub find_eol_from : Buffer → ℕ → Option (Option ℕ)
find_eol_from b start = do
  bytes ← copy_out b.storage (add_size b.read_index start) (sub_size (buffer_length b) start)
  some (find_eol_in bytes)
