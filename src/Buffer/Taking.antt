-- ===== src/Buffer/Taking.antt =====
-- What the operations of evpp/buffer.h that take bytes out do to the unread bytes.
use evpp.Base.{
  ℕ, ◌+◌, ◌-◌, ◌<◌, ◌^◌, ◌≡◌, refl, sym, ap, ◌∙◌, inl, inr, [], some, arith, take, drop, add_size,
  Bool-cases, ltb, ==_iff, ◌==◌, take-all, drop-all,
}
use evpp.Base.Memory.{window, copy_out-some, window-eq, drop-window, take-window}
use evpp.Buffer.{Buffer, buffer_length, to_string, truncate, reset, skip, next, next_all}
use evpp.Buffer.Bounds.{IsValid, buffer_length_lem, reset-IsValid}
use evpp.Buffer.Room.{contents, length-contents}

-- `ToString` and `ToSlice` give the unread bytes.
pub to_string_lem : {b : Buffer} → IsValid b → to_string b ≡ some (contents b)
unfolding to_string
to_string_lem {b} v =
    rw
      (
        buffer_length_lem v,
        copy_out-some b.storage b.read_index (b.write_index - b.read_index) (omega arith),
      )
      refl

contents-reset : (b : Buffer) → contents (reset b) ≡ []
unfolding reset truncate
contents-reset b = window-eq b.storage r r (r - r) 0 refl (omega arith)
  where
    open b use {reserved_prepend_size as r}

drop-contents :
    (b : Buffer) (n k : ℕ)
    → k ≡ b.read_index + n
    → window b.storage k (b.write_index - k) ≡ drop n (contents b)
drop-contents b n k e =
    window-eq b.storage k (r + n) (w - k) (w - r - n) e (omega arith)
    ∙ sym (drop-window b.storage r (w - r) n)
  where
    open b use {read_index as r, write_index as w}

-- `Skip` drops the first `n` unread bytes, all of them if there are no more.
pub contents-skip : {b : Buffer} (n : ℕ) → IsValid b → contents (skip b n) ≡ drop n (contents b)
unfolding skip
contents-skip {b} n v = elim (Bool-cases (ltb n (buffer_length b))) [
  | inl short ↦
      rw (short, skip)
        (drop-contents b n (add_size b.read_index n) (ground (arith, buffer_length_lem v)))
  | inr long ↦
      rw (long, skip)
        (contents-reset b
          ∙ sym (drop-all n (contents b) (ground (arith, buffer_length_lem v, length-contents v))))
]

-- `Truncate` keeps the first `n` unread bytes, unless `n` is so large that the addition wraps.
pub contents-truncate :
    {b : Buffer} (n : ℕ)
    → IsValid b
    → b.read_index + n < 2 ^ 64
    → contents (truncate b n) ≡ take n (contents b)
unfolding truncate
contents-truncate {b} n v h = elim (Bool-cases (n == 0)) [
  | inl z ↦
      rw (z, truncate)
        (window-eq b.storage p p (p - p) 0 refl (omega arith)
          ∙ ap (λ k. take k (contents b)) (sym ((==_iff n 0).0 z)))
  | inr nz ↦ elim (Bool-cases (ltb (add_size r n) w)) [
    | inl short ↦
        rw (nz, short, truncate)
          (window-eq b.storage r r (add_size r n - r) n refl (omega arith)
            ∙ sym (take-window b.storage r (w - r) n (ground arith)))
    | inr long ↦
        rw (nz, long, truncate) (sym (take-all n (contents b) (ground (arith, length-contents v))))
  ]
]
  where
    open b use {read_index as r, write_index as w, reserved_prepend_size as p}

-- `Next` gives the first `n` unread bytes, all of them if there are no more, and keeps the rest.
pub next_lem :
    {b : Buffer} (n : ℕ)
    → IsValid b
    → (b' : Buffer) × (next b n ≡ some (take n (contents b), b'))
      × IsValid b'
      × (contents b' ≡ drop n (contents b))
unfolding next next_all
next_lem {b} n v = elim (Bool-cases (ltb n (buffer_length b))) [
  | inl short ↦ (
    record b { read_index = add_size r n },
    rw
        (
          short,
          copy_out-some b.storage r n (ground (arith, buffer_length_lem v)),
          take-window b.storage r (w - r) n (ground (arith, buffer_length_lem v)),
        )
        refl,
    record {
      stored = v.stored;
      ordered = ground (arith, buffer_length_lem v);
      within = v.within;
      room = v.room;
      small = v.small;
    },
    drop-contents b n (add_size r n) (ground (arith, buffer_length_lem v)),
  )
  | inr long ↦ (
    reset b,
    rw
        (
          long,
          to_string_lem v,
          take-all n (contents b) (ground (arith, buffer_length_lem v, length-contents v)),
        )
        refl,
    reset-IsValid v,
    contents-reset b
        ∙ sym (drop-all n (contents b) (ground (arith, buffer_length_lem v, length-contents v))),
  )
]
  where
    open b use {read_index as r, write_index as w}
