-- ===== src/Utility/Splitting.antt =====
-- evpp/utility.h: what StringSplit gives of a text that is joined of parts.
use mathlib.Core.Bool.{true≢false}
use evpp.Base.{
  ℕ, zero, suc, ◌+◌, ◌≤◌, ◌≡◌, ◌≢◌, refl, ap, ◌∙◌, Bool, true, false, List, [], ◌∷◌, ◌++◌, none,
  some, ◌||◌, ◌==◌, ==_refl, length, length-append, All, arith,
}
use evpp.Base.Decimal.{has}
use evpp.Utility.{cut, part, split_from, string_split}

-- A text with a delimiter between any two parts
abbrev pub join : ℕ → List (List ℕ) → List ℕ
join d [] = []
join d (p ∷ []) = p
join d (p ∷ q ∷ ps) = p ++ (d ∷ join d (q ∷ ps))

abbrev pub Without : ℕ → List ℕ → Type 0
Without d p = has d p ≡ false

neither : (a b : Bool) → (a || b) ≡ false → (a ≡ false) × (b ≡ false)
neither false b h = (refl, h)
neither true b h = absurd (true≢false h)

flip : (c d : ℕ) → (c == d) ≡ false → ((d == c) || false) ≡ false
flip c d h = ground arith

cut-last : (d : ℕ) (p : List ℕ) → Without d p → cut (d ∷ []) p ≡ (p, none)
cut-last d [] w = refl
cut-last d (c ∷ p) w =
    let (e, rest) = neither (c == d) (has d p) w in rw (flip c d e) rw (cut-last d p rest) refl

cut-part : (d : ℕ) (p s : List ℕ) → Without d p → cut (d ∷ []) (p ++ (d ∷ s)) ≡ (p, some s)
cut-part d [] s w = rw (==_refl d) refl
cut-part d (c ∷ p) s w =
    let (e, rest) = neither (c == d) (has d p) w in rw (flip c d e) rw (cut-part d p s rest) refl

part-some :
    (n : ℕ) (s before rest : List ℕ) (more : List ℕ → List (List ℕ))
    → part 0 n s (before, some rest) more ≡ before ∷ more rest
part-some n s [] rest more = refl
part-some n s (b ∷ before) rest more = refl

split_from-join :
    (d fuel n : ℕ) (p : List ℕ) (ps : List (List ℕ))
    → All (Without d) (p ∷ ps)
    → length (join d (p ∷ ps)) ≤ fuel
    → split_from fuel (d ∷ []) 0 n (join d (p ∷ ps)) ≡ p ∷ ps
unfolding split_from
split_from-join d zero n p [] w h = refl
split_from-join d (suc fuel) n p [] (w, ws) h =
    ap (λ r. part 0 n p r (λ rest. split_from fuel (d ∷ []) 0 (n + 1) rest)) (cut-last d p w)
split_from-join d zero n p (q ∷ ps) w h =
    absurd (omega (arith, length-append p (d ∷ join d (q ∷ ps))))
split_from-join d (suc fuel) n p (q ∷ ps) (w, ws) h =
    let s : List ℕ = join d (q ∷ ps) in
    let more : List ℕ → List (List ℕ) = λ rest. split_from fuel (d ∷ []) 0 (n + 1) rest in
    ap (λ r. part 0 n (p ++ (d ∷ s)) r more) (cut-part d p s w)
    ∙ part-some n (p ++ (d ∷ s)) p s more
    ∙ ap (λ r. p ∷ r)
        (split_from-join d fuel (n + 1) q ps ws (omega (arith, length-append p (d ∷ s))))

string_split-whole :
    (delims s : List ℕ) (max : ℕ)
    → s ≢ []
    → string_split delims max s ≡ split_from (length s) delims max 0 s
unfolding string_split
string_split-whole delims [] max h = absurd (h refl)
string_split-whole delims (c ∷ s) max h = refl

-- StringSplit with one delimiter and no limit gives back the parts that a text was joined of, the
-- empty ones too, if no part has the delimiter; only the empty text has no part at all.
pub string_split-join :
    (d : ℕ) (p : List ℕ) (ps : List (List ℕ))
    → All (Without d) (p ∷ ps)
    → join d (p ∷ ps) ≢ []
    → string_split (d ∷ []) 0 (join d (p ∷ ps)) ≡ p ∷ ps
string_split-join d p ps w h =
    string_split-whole (d ∷ []) (join d (p ∷ ps)) 0 h
    ∙ split_from-join d (length (join d (p ∷ ps))) 0 p ps w (omega arith)
