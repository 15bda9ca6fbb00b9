-- ===== src/Buffer/Bounds.antt =====
-- The representation invariant of evpp/buffer.h: the indices are ordered and inside the storage.
use evpp.Base.{ℕ, ◌+◌, ◌*◌, ◌≤◌, ◌<◌, ◌^◌, ◌≡◌, ◌-◌, arith, length, length-replicate, add_size}
use evpp.Buffer.{Buffer, new, buffer_length, writable_bytes, truncate, reset, skip}

pub record IsValid (b : Buffer) : Type 0 where
  pub stored : length b.storage ≡ b.capacity
  pub ordered : b.read_index ≤ b.write_index
  pub within : b.write_index ≤ b.capacity
  pub room : b.reserved_prepend_size ≤ b.capacity
  pub small : b.capacity < 2 ^ 64

-- Neither the doubled capacity nor what `n` more bytes need overflows a `size_t`.
abbrev pub Fits : Buffer → ℕ → Type 0
Fits b n = b.capacity * 2 + n < 2 ^ 64

pub buffer_length_lem : {b : Buffer} → IsValid b → buffer_length b ≡ b.write_index - b.read_index
unfolding buffer_length
buffer_length_lem v = omega arith

pub writable_bytes_lem : {b : Buffer} → IsValid b → writable_bytes b ≡ b.capacity - b.write_index
unfolding writable_bytes
writable_bytes_lem v = omega arith

pub new-IsValid : (n p : ℕ) → p + n < 2 ^ 64 → IsValid (new n p)
unfolding new
new-IsValid n p h = record {
  stored = length-replicate (add_size p n) 0;
  ordered = omega arith;
  within = omega arith;
  room = omega arith;
  small = omega arith;
}

pub reset-IsValid : {b : Buffer} → IsValid b → IsValid (reset b)
unfolding reset truncate
reset-IsValid v = ground arith

pub truncate-IsValid :
    {b : Buffer} (n : ℕ) → IsValid b → b.read_index + n < 2 ^ 64 → IsValid (truncate b n)
unfolding truncate
truncate-IsValid n v h = ground arith

pub skip-IsValid : {b : Buffer} (n : ℕ) → IsValid b → IsValid (skip b n)
unfolding skip reset truncate buffer_length
skip-IsValid n v = ground arith
