-- ===== src/Base/Memory.antt =====
-- A block of memory as a list of cells: the part that starts at an offset, and a copy into it.
use Prim.Native.Nat.{ℕ, zero, suc, ◌+◌, ◌-◌, ◌≤◌}
use mathlib.Core.Path.{◌≡◌, refl, ap, ap₂, sym, ◌∙◌}
use mathlib.Core.List.{List, [], ◌∷◌, ◌++◌}
use mathlib.Core.Option.{Option, none, some}
use native.Mathlib.Omega.{arith}
use evpp.Base.Tests.{leb, le→leb, if◌then◌else◌}
use evpp.Base.Lists.{length, take, drop, length-take, length-drop, take-take_min}

suc_add : (m n : ℕ) → suc m + n ≡ suc (m + n)
suc_add m n = omega arith

minus_zero : (m : ℕ) → m ≡ m - 0
minus_zero m = omega arith

zero_minus : (n : ℕ) → 0 - n ≡ 0
zero_minus n = omega arith

suc_minus : (m n : ℕ) → m - n ≡ suc m - suc n
suc_minus m n = omega arith

module _ {ℓ} {A : Type ℓ} where
  -- The `n` cells from offset `i` on.
  abbrev pub window : List A → ℕ → ℕ → List A
  window s i n = take n (drop i s)

  -- The cells of `s`, with `d` copied over them from offset `i` on.
  unfoldable pub patch : List A → ℕ → List A → List A
  patch [] i d = []
  patch (x ∷ s) (suc i) d = x ∷ patch s i d
  patch (x ∷ s) zero [] = x ∷ s
  patch (x ∷ s) zero (y ∷ d) = y ∷ patch s zero d

  -- `memcpy` out of and into a block; `none` is an access outside it.
  unfoldable pub copy_out : List A → ℕ → ℕ → Option (List A)
  copy_out s i n = if leb (i + n) (length s) then some (window s i n) else none

  unfoldable pub copy_in : List A → ℕ → List A → Option (List A)
  copy_in s i d = if leb (i + length d) (length s) then some (patch s i d) else none

  pub copy_out-some :
      (s : List A) (i n : ℕ) → i + n ≤ length s → copy_out s i n ≡ some (window s i n)
  unfolding copy_out
  copy_out-some s i n h = rw (le→leb _ _ h)

  pub copy_in-some :
      (s : List A) (i : ℕ) (d : List A)
      → i + length d ≤ length s
      → copy_in s i d ≡ some (patch s i d)
  unfolding copy_in
  copy_in-some s i d h = rw (le→leb _ _ h)

  pub length-window : (s : List A) (i n : ℕ) → i + n ≤ length s → length (window s i n) ≡ n
  length-window s i n h = omega (arith, length-take n (drop i s), length-drop i s)

  pub length-patch : (s : List A) (i : ℕ) (d : List A) → length (patch s i d) ≡ length s
  unfolding patch
  length-patch [] i d = refl
  length-patch (x ∷ s) (suc i) d = ap suc (length-patch s i d)
  length-patch (x ∷ s) zero [] = refl
  length-patch (x ∷ s) zero (y ∷ d) = ap suc (length-patch s zero d)

  -- What was copied in can be read back.
  pub window-patch :
      (s : List A) (i : ℕ) (d : List A)
      → i + length d ≤ length s
      → window (patch s i d) i (length d) ≡ d
  unfolding patch
  window-patch [] zero [] h = refl
  window-patch [] zero (y ∷ d) h = absurd (omega arith)
  window-patch [] (suc i) d h = absurd (omega arith)
  window-patch (x ∷ s) (suc i) d h = window-patch s i d (omega arith)
  window-patch (x ∷ s) zero [] h = refl
  window-patch (x ∷ s) zero (y ∷ d) h = ap (◌∷◌ y) (window-patch s zero d (omega arith))

  -- What lies before the copy is as it was.
  pub window-patch_before :
      (s : List A) (i : ℕ) (d : List A) (r n : ℕ)
      → r + n ≤ i
      → window (patch s i d) r n ≡ window s r n
  unfolding patch
  window-patch_before [] i d r n h = refl
  window-patch_before (x ∷ s) zero [] r n h = refl
  window-patch_before (x ∷ s) zero (y ∷ d) zero zero h = refl
  window-patch_before (x ∷ s) zero (y ∷ d) zero (suc n) h = absurd (omega arith)
  window-patch_before (x ∷ s) zero (y ∷ d) (suc r) n h = absurd (omega arith)
  window-patch_before (x ∷ s) (suc i) d zero zero h = refl
  window-patch_before (x ∷ s) (suc i) d zero (suc n) h =
      ap (◌∷◌ x) (window-patch_before s i d zero n (omega arith))
  window-patch_before (x ∷ s) (suc i) d (suc r) n h = window-patch_before s i d r n (omega arith)

  -- So is what lies behind it.
  pub window-patch_after :
      (s : List A) (i : ℕ) (d : List A) (r n : ℕ)
      → i + length d ≤ r
      → window (patch s i d) r n ≡ window s r n
  unfolding patch
  window-patch_after [] i d r n h = refl
  window-patch_after (x ∷ s) zero [] r n h = refl
  window-patch_after (x ∷ s) zero (y ∷ d) zero n h = absurd (omega arith)
  window-patch_after (x ∷ s) zero (y ∷ d) (suc r) n h =
      window-patch_after s zero d r n (omega arith)
  window-patch_after (x ∷ s) (suc i) d zero n h = absurd (omega arith)
  window-patch_after (x ∷ s) (suc i) d (suc r) n h = window-patch_after s i d r n (omega arith)

  take-nil : (n : ℕ) → take {A = A} n [] ≡ []
  take-nil zero = refl
  take-nil (suc n) = refl

  drop-nil : (n : ℕ) → drop {A = A} n [] ≡ []
  drop-nil zero = refl
  drop-nil (suc n) = refl

  take-add : (m n : ℕ) (s : List A) → take (m + n) s ≡ take m s ++ take n (drop m s)
  take-add zero n s = ap (λ k. take k s) (omega arith)
  take-add (suc m) n [] = take-nil (suc m + n) ∙ sym (take-nil n)
  take-add (suc m) n (x ∷ s) = ap (λ k. take k (x ∷ s)) (suc_add m n) ∙ ap (◌∷◌ x) (take-add m n s)

  drop-drop : (i m : ℕ) (s : List A) → drop m (drop i s) ≡ drop (i + m) s
  drop-drop zero m s = ap (λ k. drop k s) (omega arith)
  drop-drop (suc i) m [] = drop-nil m ∙ sym (drop-nil (suc i + m))
  drop-drop (suc i) m (x ∷ s) = drop-drop i m s ∙ ap (λ k. drop k (x ∷ s)) (sym (suc_add i m))

  pub window-add :
      (s : List A) (i m n : ℕ) → window s i (m + n) ≡ window s i m ++ window s (i + m) n
  window-add s i m n =
      take-add m n (drop i s) ∙ ap (λ t. take m (drop i s) ++ take n t) (drop-drop i m s)

  drop-take : (n m : ℕ) (s : List A) → drop n (take m s) ≡ take (m - n) (drop n s)
  drop-take zero m s = ap (λ k. take k s) (minus_zero m)
  drop-take (suc n) zero s = sym (ap (λ k. take k (drop (suc n) s)) (zero_minus (suc n)))
  drop-take (suc n) (suc m) [] = sym (take-nil (suc m - suc n))
  drop-take (suc n) (suc m) (x ∷ s) = drop-take n m s ∙ ap (λ k. take k (drop n s)) (suc_minus m n)

  pub drop-window : (s : List A) (i m n : ℕ) → drop n (window s i m) ≡ window s (i + n) (m - n)
  drop-window s i m n = drop-take n m (drop i s) ∙ ap (take (m - n)) (drop-drop i n s)

  pub take-window : (s : List A) (i m n : ℕ) → n ≤ m → take n (window s i m) ≡ window s i n
  take-window s i m n h = take-take_min n m (drop i s) h

  pub window-eq : (s : List A) (i j m n : ℕ) → i ≡ j → m ≡ n → window s i m ≡ window s j n
  window-eq s i j m n p q = ap₂ (window s) p q
