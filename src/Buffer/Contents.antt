-- ===== src/Buffer/Contents.antt =====
-- What the operations of evpp/buffer.h and buffer.cc do to the unread bytes.
use evpp.Base.{
  ℕ, ◌+◌, ◌*◌, ◌-◌, ◌≤◌, ◌≡◌, refl, ap, ap₂, ◌∙◌, inl, inr, List, ◌++◌, some, arith, length, take,
  drop, add_size, sub_size, Bool-cases, leb, leb→le, min, length-take, length-drop,
  take-append-drop, take-all, append_assoc,
}
use evpp.Base.Memory.{
  window, patch, copy_in-some, length-patch, window-patch, window-patch_before, window-patch_after,
  window-add, window-eq,
}
use evpp.Buffer.{Buffer, write, prepend, got, read_from_fd}
use evpp.Buffer.Bounds.{IsValid, Fits, writable_bytes_lem}
use evpp.Buffer.Room.{contents, ensure_writable_bytes-Roomy}

-- Bytes written behind the unread ones are unread bytes at their end.
append-contents :
    {b : Buffer} (d : List ℕ)
    → IsValid b
    → b.write_index + length d ≤ b.capacity
    → window
        (patch b.storage b.write_index d)
        b.read_index
        (add_size b.write_index (length d) - b.read_index)
      ≡ contents b ++ d
append-contents {b} d v h =
    ap (window (patch s w d) r) (sum)
    ∙ window-add (patch s w d) r (w - r) (length d)
    ∙ ap₂ ◌++◌ (window-patch_before s w d r (w - r) (omega arith))
        (ap (λ k. window (patch s w d) k (length d)) (back) ∙ window-patch s w d (omega arith))
  where
    open b use {storage as s, read_index as r, write_index as w}

    sum : add_size w (length d) - r ≡ w - r + length d
    sum = omega arith

    back : r + (w - r) ≡ w
    back = omega arith

module _ {b : Buffer} (d : List ℕ) (v : IsValid b) where
  -- `Write` and `Append`, with a bound on the new capacity.
  pub write_bounded :
      Fits b (length d)
      → (b' : Buffer) × (write b d ≡ some b')
        × IsValid b'
        × (contents b' ≡ contents b ++ d)
        × (b'.capacity ≤ b.capacity * 2 + length d)
  unfolding write
  write_bounded f =
      let (c, e, y) = ensure_writable_bytes-Roomy (length d) v f in
      (
        record c {
          storage = patch c.storage c.write_index d;
          write_index = add_size c.write_index (length d);
        },
        rw e (rw (copy_in-some c.storage c.write_index d (omega arith)) refl),
        record {
          stored = length-patch c.storage c.write_index d ∙ y.valid.stored;
          ordered = omega arith;
          within = omega arith;
          room = omega arith;
          small = omega arith;
        },
        append-contents d y.valid y.free ∙ ap (λ x. x ++ d) y.same,
        omega arith,
      )

  -- `Write` and `Append` succeed inside the storage, which grows if it must, and put the given
  -- bytes behind the unread ones.
  pub write_lem :
      Fits b (length d)
      → (b' : Buffer) × (write b d ≡ some b') × IsValid b' × (contents b' ≡ contents b ++ d)
  write_lem f = let (b', e, v', c, _) = write_bounded f in (b', e, v', c)

-- `Prepend` puts the bytes in front, in the space before the unread ones.
pub prepend_lem :
    {b : Buffer} (d : List ℕ)
    → IsValid b
    → length d ≤ b.read_index
    → (b' : Buffer) × (prepend b d ≡ some b') × IsValid b' × (contents b' ≡ d ++ contents b)
unfolding prepend
prepend_lem {b} d v h = (
  record b { storage = patch s k d; read_index = k },
  rw (copy_in-some s k d (omega arith)) refl,
  record {
    stored = length-patch s k d ∙ v.stored;
    ordered = omega arith;
    within = omega arith;
    room = omega arith;
    small = omega arith;
  },
  ap (window (patch s k d) k) (sum)
      ∙ window-add (patch s k d) k (length d) (w - r)
      ∙ ap₂ ◌++◌ (window-patch s k d (omega arith)) (
          window-patch_after s k d (k + length d) (w - r) (omega arith)
          ∙ ap (λ i. window s i (w - r)) back),
)
  where
    open b use {storage as s, read_index as r, write_index as w}

    k : ℕ
    k = sub_size r (length d)

    sum : w - k ≡ length d + (w - r)
    sum = omega arith

    back : k + length d ≡ r
    back = omega arith

module _ {b : Buffer} (bytes : List ℕ) (v : IsValid b) where
  open b use {storage as s, write_index as w}

  -- What reaches the free space of the buffer.
  direct : List ℕ
  direct = take (b.capacity - w) bytes

  length-direct : length direct ≡ min (b.capacity - w) (length bytes)
  unfolding direct
  length-direct = length-take (b.capacity - w) bytes

  filled : ℕ → Buffer
  filled k = record b { storage = patch s w direct; write_index = k }

  filled-IsValid : (k : ℕ) → w ≤ k → k ≤ b.capacity → IsValid (filled k)
  unfolding filled
  filled-IsValid k lo hi = record {
    stored = length-patch s w direct ∙ v.stored;
    ordered = omega arith;
    within = hi;
    room = v.room;
    small = v.small;
  }

  contents-filled : (k : ℕ) → k ≡ w + length direct → contents (filled k) ≡ contents b ++ direct
  unfolding filled
  contents-filled k e =
      window-eq (patch s w direct) b.read_index b.read_index (k - b.read_index)
        (add_size w (length direct) - b.read_index) refl (omega (arith, length-direct))
      ∙ append-contents direct v (omega (arith, length-direct))

  -- `ReadFromFD` appends what the kernel delivered, also what went through `extrabuf`.
  pub read_from_fd_lem :
      Fits b (length bytes)
      → (b' : Buffer) × (read_from_fd b (got bytes) ≡ some b')
        × IsValid b'
        × (contents b' ≡ contents b ++ bytes)
  unfolding read_from_fd direct
  read_from_fd_lem f = elim (Bool-cases (leb (length bytes) (b.capacity - w))) [
    | inl short ↦
        let all : direct ≡ bytes = take-all (b.capacity - w) bytes (leb→le _ _ short) in
        (
          filled (add_size w (length bytes)),
          rw (writable_bytes_lem v, copy_in-some s w direct (omega (arith, length-direct)))
              (rw short (unfold filled in refl)),
          filled-IsValid _ (ground arith) (ground arith),
          contents-filled _ (ground (arith, ap length all)) ∙ ap (λ x. contents b ++ x) all,
        )
    | inr long ↦
        let (b', e, v', c) =
          write_lem (drop (b.capacity - w) bytes)
            (filled-IsValid b.capacity (omega arith) (omega arith))
            (unfold filled in ground (arith, length-drop (b.capacity - w) bytes)) in
        (
          b',
          rw (writable_bytes_lem v, copy_in-some s w direct (omega (arith, length-direct)))
              (rw long (unfold filled in e)),
          v',
          c
              ∙ ap (λ x. x ++ drop (b.capacity - w) bytes)
                  (contents-filled b.capacity (ground (arith, length-direct)))
              ∙ append_assoc (contents b) direct (drop (b.capacity - w) bytes)
              ∙ ap (λ x. contents b ++ x) (take-append-drop (b.capacity - w) bytes),
        )
  ]
