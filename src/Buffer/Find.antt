-- ===== src/Buffer/Find.antt =====
-- The searches of evpp/buffer.h against a description of what they look for.
use evpp.Base.{
  ℕ, zero, suc, ◌+◌, ◌-◌, ◌≤◌, ◌<◌, ◌≡◌, refl, sym, ap, ◌∙◌, inl, inr, List, [], ◌∷◌, Option, none,
  some, arith, get_elem?, length, drop, add_size, sub_size, Bool-cases, ◌==◌, ==_iff, ◌&&◌,
}
use evpp.Base.Memory.{copy_out, copy_out-some, drop-window, window-eq}
use evpp.Buffer.{
  Buffer, bump, find_crlf_in, find_eol_in, find_crlf, find_eol, find_crlf_from, find_eol_from,
  buffer_length,
}
use evpp.Buffer.Bounds.{IsValid, buffer_length_lem}
use evpp.Buffer.Room.{contents, length-contents}
use evpp.Buffer.Taking.{to_string_lem}

-- The text has "\r\n" at `i`, or '\n'.
abbrev pub CrlfAt : List ℕ → ℕ → Type 0
CrlfAt s i = (get_elem? s i ≡ some b'\r') × (get_elem? s (suc i) ≡ some b'\n')

abbrev pub EolAt : List ℕ → ℕ → Type 0
EolAt s i = get_elem? s i ≡ some b'\n'

-- The result of a search for the first place that has `P`.
pub data First (P : ℕ → Type 0) : Option ℕ → Type 0 where
  found : (i : ℕ) → P i → ((j : ℕ) → j < i → ¬ P j) → First P (some i)
  missing : ((j : ℕ) → ¬ P j) → First P none

First-bump :
    (P Q : ℕ → Type 0) (r : Option ℕ)
    → ¬ P 0
    → ((j : ℕ) → P (suc j) → Q j)
    → ((j : ℕ) → Q j → P (suc j))
    → First Q r
    → First P (bump r)
unfolding bump
First-bump P Q _ z down up (found i q before) = found (suc i) (up i q) earlier
  where
    earlier : (j : ℕ) → j < suc i → ¬ P j
    earlier zero h p = z p
    earlier (suc j) h p = before j (omega arith) (down j p)
First-bump P Q _ z down up (missing nowhere) = missing nowhere'
  where
    nowhere' : (j : ℕ) → ¬ P j
    nowhere' zero p = z p
    nowhere' (suc j) p = nowhere j (down j p)

find_eol_in-First : (s : List ℕ) → First (EolAt s) (find_eol_in s)
unfolding find_eol_in
find_eol_in-First [] = missing (λ j h. cc)
find_eol_in-First (x ∷ s) = elim (Bool-cases (x == b'\n')) [
  | inl hit ↦ rw hit (found 0 (ap some ((==_iff x _).0 hit)) (λ j h. absurd (omega arith)))
  | inr miss ↦ rw miss (
      First-bump (EolAt (x ∷ s)) (EolAt s) (find_eol_in s) (λ e. ground arith) (λ j h. h) (λ j h. h)
        (find_eol_in-First s))
]

find_crlf_in-First : (s : List ℕ) → First (CrlfAt s) (find_crlf_in s)
unfolding find_crlf_in
find_crlf_in-First [] = missing (λ j h. cc)
find_crlf_in-First (x ∷ []) = missing one
  where
    one : (j : ℕ) → ¬ CrlfAt (x ∷ []) j
    one zero h = cc
    one (suc j) h = cc
find_crlf_in-First (x ∷ y ∷ s) = elim (Bool-cases ((x == b'\r') && (y == b'\n'))) [
  | inl hit ↦ rw hit (found 0 (ground arith, ground arith) (λ j h. absurd (omega arith)))
  | inr miss ↦ rw miss (
      First-bump (CrlfAt (x ∷ y ∷ s)) (CrlfAt (y ∷ s)) (find_crlf_in (y ∷ s)) (λ e. ground arith)
        (λ j h. h) (λ j h. h) (find_crlf_in-First (y ∷ s)))
]

-- What a search says of the unread bytes from an offset on.
abbrev pub Finds : (List ℕ → ℕ → Type 0) → List ℕ → Option (Option ℕ) → Type 0
Finds At s r = (i : Option ℕ) × (r ≡ some i) × First (At s) i

-- `FindCRLF` and `FindEOL`, from an offset on that lies in the unread bytes, return the first
-- "\r\n" or '\n' there, and the null pointer only if there is none.
pub find_lem :
    {b : Buffer} (start : ℕ)
    → IsValid b
    → start ≤ length (contents b)
    → Finds CrlfAt (drop start (contents b)) (find_crlf_from b start)
      × Finds EolAt (drop start (contents b)) (find_eol_from b start)
      × (find_crlf_from b 0 ≡ find_crlf b)
      × (find_eol_from b 0 ≡ find_eol b)
unfolding find_crlf_from find_eol_from find_crlf find_eol
find_lem {b} start v h = (
  (find_crlf_in rest, rw copied refl, find_crlf_in-First rest),
  (find_eol_in rest, rw copied refl, find_eol_in-First rest),
  rw (to_string_lem v, whole) refl,
  rw (to_string_lem v, whole) refl,
)
  where
    rest : List ℕ
    rest = drop start (contents b)

    copied_from :
        (k : ℕ)
        → k ≤ length (contents b)
        → copy_out b.storage (add_size b.read_index k) (sub_size (buffer_length b) k)
          ≡ some (drop k (contents b))
    copied_from k le =
        copy_out-some b.storage (add_size b.read_index k) (sub_size (buffer_length b) k)
          (omega (arith, buffer_length_lem v, length-contents v))
        ∙ ap some (
            window-eq b.storage _ (b.read_index + k) _ (b.write_index - b.read_index - k)
              (omega (arith, length-contents v))
              (omega (arith, buffer_length_lem v, length-contents v))
            ∙ sym (drop-window b.storage b.read_index (b.write_index - b.read_index) k))

    copied :
        copy_out b.storage (add_size b.read_index start) (sub_size (buffer_length b) start)
        ≡ some rest
    copied = copied_from start h

    whole :
        copy_out b.storage (add_size b.read_index 0) (sub_size (buffer_length b) 0)
        ≡ some (contents b)
    whole = copied_from 0 (omega arith)
