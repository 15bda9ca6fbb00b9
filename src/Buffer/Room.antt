-- ===== src/Buffer/Room.antt =====
-- `grow` and `EnsureWritableBytes` of evpp/buffer.h: room for more bytes, and the unread bytes kept.
use evpp.Base.{
  ℕ, ◌+◌, ◌*◌, ◌-◌, ◌≤◌, ◌≡◌, refl, sym, ap, ◌∙◌, inl, inr, List, some, arith, length, replicate,
  length-replicate, add_size, Bool-cases, ltb,
}
use evpp.Base.Memory.{
  window, patch, copy_out-some, copy_in-some, length-window, length-patch, window-patch,
}
use evpp.Buffer.{
  Buffer, buffer_length, writable_bytes, reallocate, move_to_front, grow, grown,
  ensure_writable_bytes, prependable_bytes,
}
use evpp.Buffer.Bounds.{IsValid, Fits, buffer_length_lem, writable_bytes_lem}

-- The unread bytes.
abbrev pub contents : Buffer → List ℕ
contents b = window b.storage b.read_index (b.write_index - b.read_index)

pub length-contents : {b : Buffer} → IsValid b → length (contents b) ≡ b.write_index - b.read_index
length-contents {b} v = length-window b.storage b.read_index _ (omega arith)

-- What making room for `n` bytes is to achieve.
pub record Roomy (b : Buffer) (n : ℕ) (b' : Buffer) : Type 0 where
  pub valid : IsValid b'
  pub same : contents b' ≡ contents b
  pub free : b'.write_index + n ≤ b'.capacity
  pub prepend_size : b'.reserved_prepend_size ≡ b.reserved_prepend_size
  pub more : b.capacity ≤ b'.capacity
  pub bounded : b'.capacity ≤ b.capacity * 2 + n

module _ {b : Buffer} (n : ℕ) (v : IsValid b) where
  -- The contents, copied to the front of a block that is large enough.
  placed :
      (s : List ℕ) (m : ℕ)
      → m ≡ b.write_index - b.read_index
      → b.reserved_prepend_size + m ≤ length s
      → window (patch s b.reserved_prepend_size (contents b)) b.reserved_prepend_size m ≡ contents b
  placed s m e h =
      ap (window _ b.reserved_prepend_size) (e ∙ sym (length-contents v))
      ∙ window-patch s b.reserved_prepend_size (contents b) (omega (arith, length-contents v))

  reallocate-Roomy : Fits b n → (b' : Buffer) × (reallocate b n ≡ some b') × Roomy b n b'
  unfolding reallocate
  reallocate-Roomy f = (
    record b {
      storage = patch (replicate (grown b.capacity n) 0) b.reserved_prepend_size (contents b);
      capacity = grown b.capacity n;
      read_index = b.reserved_prepend_size;
      write_index = add_size (buffer_length b) b.reserved_prepend_size;
    },
    rw
        (
          buffer_length_lem v,
          copy_out-some b.storage b.read_index (b.write_index - b.read_index) (omega arith),
          copy_in-some (replicate (grown b.capacity n) 0) b.reserved_prepend_size (contents b)
              (omega (arith, length-contents v, length-replicate {A = ℕ} (grown b.capacity n) 0)),
        )
        refl,
    record {
      valid = record {
        stored =
            length-patch (replicate (grown b.capacity n) 0) b.reserved_prepend_size (contents b)
            ∙ length-replicate {A = ℕ} (grown b.capacity n) 0;
        ordered = omega (arith, buffer_length_lem v);
        within = omega (arith, buffer_length_lem v);
        room = omega arith;
        small = omega arith;
      };
      same =
          placed _ _ (omega (arith, buffer_length_lem v))
            (omega (arith, buffer_length_lem v, length-replicate {A = ℕ} (grown b.capacity n) 0));
      free = omega (arith, buffer_length_lem v);
      prepend_size = refl;
      more = omega arith;
      bounded = omega arith;
    },
  )

  move_to_front-Roomy :
      b.write_index - b.read_index + n + b.reserved_prepend_size ≤ b.capacity
      → (b' : Buffer) × (move_to_front b ≡ some b') × Roomy b n b'
  unfolding move_to_front
  move_to_front-Roomy f = (
    record b {
      storage = patch b.storage b.reserved_prepend_size (contents b);
      read_index = b.reserved_prepend_size;
      write_index = add_size b.reserved_prepend_size (buffer_length b);
    },
    rw
        (
          buffer_length_lem v,
          copy_out-some b.storage b.read_index (b.write_index - b.read_index) (omega arith),
          copy_in-some b.storage b.reserved_prepend_size (contents b)
              (omega (arith, length-contents v)),
        )
        refl,
    record {
      valid = record {
        stored = length-patch b.storage b.reserved_prepend_size (contents b) ∙ v.stored;
        ordered = omega (arith, buffer_length_lem v);
        within = omega (arith, buffer_length_lem v);
        room = omega arith;
        small = omega arith;
      };
      same = placed _ _ (omega (arith, buffer_length_lem v)) (omega (arith, buffer_length_lem v));
      free = omega (arith, buffer_length_lem v);
      prepend_size = refl;
      more = omega arith;
      bounded = omega arith;
    },
  )

  -- `grow(n)` never leaves the storage, keeps the unread bytes and frees `n` bytes behind them.
  pub grow-Roomy : Fits b n → (b' : Buffer) × (grow b n ≡ some b') × Roomy b n b'
  unfolding grow prependable_bytes
  grow-Roomy f =
      elim (Bool-cases
        (ltb (add_size (writable_bytes b) b.read_index) (add_size n b.reserved_prepend_size))) [
          | inl full ↦ rw full (reallocate-Roomy f)
          | inr free ↦ rw free (move_to_front-Roomy (ground (arith, writable_bytes_lem v)))
        ]

  self-Roomy : b.write_index + n ≤ b.capacity → Roomy b n b
  self-Roomy h = record {
    valid = v;
    same = refl;
    free = h;
    prepend_size = refl;
    more = omega arith;
    bounded = omega arith;
  }

  pub ensure_writable_bytes-Roomy :
      Fits b n → (b' : Buffer) × (ensure_writable_bytes b n ≡ some b') × Roomy b n b'
  unfolding ensure_writable_bytes
  ensure_writable_bytes-Roomy f = elim (Bool-cases (ltb (writable_bytes b) n)) [
    | inl full ↦ rw full (grow-Roomy f)
    | inr free ↦ rw free (b, refl, self-Roomy (ground (arith, writable_bytes_lem v)))
  ]
