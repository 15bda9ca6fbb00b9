-- ===== src/Buffer/Cursor.antt =====
-- The operations of evpp/buffer.h that move an index back, resize, or may break the invariant.
use evpp.Base.{
  ℕ, ◌+◌, ◌*◌, ◌-◌, ◌≤◌, ◌<◌, ◌^◌, ◌≡◌, refl, sym, ap, ◌∙◌, inl, inr, List, [], ◌∷◌, ◌++◌, some,
  arith, length, take, add_size, Bool-cases, leb, lt→ltb, length-append, take-length_append,
}
use evpp.Base.Memory.{take-window, window-eq, copy_out-some}
use evpp.Buffer.{
  Buffer, new, buffer_length, truncate, next, unwrite_bytes, unread_bytes, to_text, shrink, reserve,
  cheap_prepend_size,
}
use evpp.Buffer.Bounds.{IsValid, Fits, buffer_length_lem, new-IsValid}
use evpp.Buffer.Room.{contents, length-contents, grow-Roomy}
use evpp.Buffer.Contents.{write_lem}
use evpp.Buffer.Taking.{to_string_lem}

-- `UnwriteBytes(n)` takes the last `n` unread bytes away.
pub unwrite_bytes_lem :
    {b : Buffer} (n : ℕ)
    → IsValid b
    → n ≤ length (contents b)
    → IsValid (unwrite_bytes b n)
      × (contents (unwrite_bytes b n) ≡ take (length (contents b) - n) (contents b))
unfolding unwrite_bytes
unwrite_bytes_lem {b} n v h = (
  record {
    stored = v.stored;
    ordered = omega (arith, length-contents v);
    within = omega (arith, length-contents v);
    room = v.room;
    small = v.small;
  },
  window-eq b.storage b.read_index b.read_index _ (length (contents b) - n) refl
        (omega (arith, length-contents v))
      ∙ sym (
          take-window b.storage b.read_index (b.write_index - b.read_index)
            (length (contents b) - n) (omega (arith, length-contents v))),
)

-- `UnreadBytes` undoes a `Next` that left something to read.
pub unread_bytes-next :
    {b : Buffer} (n : ℕ)
    → IsValid b
    → n < length (contents b)
    → (b' : Buffer) × (next b n ≡ some (take n (contents b), b'))
      × (contents (unread_bytes b' n) ≡ contents b)
unfolding next unread_bytes
unread_bytes-next {b} n v h = (
  record b { read_index = add_size b.read_index n },
  rw
      (
        lt→ltb n (buffer_length b) (omega (arith, buffer_length_lem v, length-contents v)),
        copy_out-some b.storage b.read_index n (omega (arith, length-contents v)),
        take-window b.storage b.read_index (b.write_index - b.read_index) n
            (omega (arith, length-contents v)),
      )
      refl,
  window-eq b.storage _ b.read_index _ (b.write_index - b.read_index)
      (omega (arith, length-contents v)) (omega (arith, length-contents v)),
)

dropped_last :
    (xs ys : List ℕ) → xs ≡ ys ++ 0 ∷ [] → length xs ≡ length ys + 1 → take (length xs - 1) xs ≡ ys
dropped_last xs ys e h =
    ap (λ k. take k xs) same ∙ ap (take (length ys)) e ∙ take-length_append ys (0 ∷ [])
  where
    same : length xs - 1 ≡ length ys
    same = omega arith

contents-new : (n p : ℕ) → contents (new n p) ≡ []
unfolding new
contents-new n p = window-eq (new n p).storage p p (p - p) 0 refl (omega arith)

-- `ToText` succeeds and leaves the unread bytes as they are.
pub to_text_lem :
    {b : Buffer}
    → IsValid b
    → Fits b 1
    → (b' : Buffer) × (to_text b ≡ some b') × IsValid b' × (contents b' ≡ contents b)
unfolding to_text
to_text_lem {b} v f =
    let (c, e, y, k) = write_lem (0 ∷ []) v f in
    let one_more : length (contents c) ≡ length (contents b) + 1 =
      ap length k ∙ length-append (contents b) (0 ∷ []) in
    let (w, t) = unwrite_bytes_lem 1 y (omega arith) in
    (unwrite_bytes c 1, rw e refl, w, t ∙ dropped_last (contents c) (contents b) k one_more)

-- `Shrink(n)` keeps the unread bytes in a buffer that has room for `n` more behind them.
pub shrink_lem :
    {b : Buffer} (n : ℕ)
    → IsValid b
    → (length (contents b) + n + 8) * 2 + length (contents b) < 2 ^ 64
    → (b' : Buffer) × (shrink b n ≡ some b') × IsValid b' × (contents b' ≡ contents b)
unfolding shrink
shrink_lem {b} n v h =
    let fresh = new (add_size (buffer_length b) n) cheap_prepend_size in
    let (c, e, y, k) =
      write_lem {b = fresh} (contents b)
        (new-IsValid _ _ (omega (arith, buffer_length_lem v, length-contents v)))
        (unfold new in omega (arith, buffer_length_lem v, length-contents v)) in
    (c, rw (to_string_lem v) e, y, k ∙ ap (λ x. x ++ contents b) (contents-new _ _))

-- `Reserve(n)` makes the capacity at least `n` and keeps the unread bytes.
pub reserve_lem :
    {b : Buffer} (n : ℕ)
    → IsValid b
    → b.capacity * 2 + (n + b.reserved_prepend_size) < 2 ^ 64
    → (b' : Buffer) × (reserve b n ≡ some b')
      × IsValid b'
      × (contents b' ≡ contents b)
      × (n + b.reserved_prepend_size ≤ b'.capacity)
unfolding reserve
reserve_lem {b} n v h = elim (Bool-cases (leb (add_size n b.reserved_prepend_size) b.capacity)) [
  | inl enough ↦ rw enough (b, refl, v, refl, ground arith)
  | inr short ↦
      let (c, e, y) = grow-Roomy (add_size n b.reserved_prepend_size) v (omega arith) in
      rw short (c, e, y.valid, y.same, omega arith)
]

-- `Truncate` with an `n` so large that `read_index_ + n` wraps to a value below the write index
-- does not leave the buffer alone: it puts the write index before the read index.
pub truncate_wraps :
    {b : Buffer} (n : ℕ)
    → IsValid b
    → n < 2 ^ 64
    → 2 ^ 64 ≤ b.read_index + n
    → b.read_index < b.write_index
    → ((truncate b n).write_index < (truncate b n).read_index) × ¬ IsValid (truncate b n)
unfolding truncate
truncate_wraps {b} n v small wraps some_unread =
    (below, λ v'. absurd (omega (arith, below, v'.ordered)))
  where
    below : (truncate b n).write_index < (truncate b n).read_index
    below = ground arith
