-- ===== src/VbucketConfig/Weights.antt =====
-- apps/evmc/vbucket_config.cc: the table of accumulated weights against a choice by weight.
use mathlib.Core.Bool.{true≢false}
use evpp.Base.{
  ap₂, subst, some-inj, is_none, ℕ, zero, suc, ◌+◌, ◌-◌, ◌%◌, ◌^◌, ◌≤◌, ◌<◌, ◌≡◌, refl, sym, ap,
  ◌∙◌, false, List, [], ◌∷◌, ◌++◌, append_assoc, append-nil, Option, none, some, ◌==◌,
  if◌then◌else◌, ltb, All, length, get_elem?, arith, inl, inr, Bool-cases,
}
use evpp.VbucketConfig.{assign, weigh, upper_bound}

abbrev pub with_weight : ℕ → Option ℕ → List (ℕ × ℕ) → List (ℕ × ℕ)
with_weight id none cs = cs
with_weight id (some w) cs = (id, w) ∷ cs

-- The servers to choose from, with their weights.
abbrev pub candidates : List ℕ → ℕ → List ℕ → List (ℕ × ℕ)
candidates health last_id [] = []
candidates health last_id (id ∷ ids) =
    if id == last_id
    then candidates health last_id ids
    else with_weight id (get_elem? health id) (candidates health last_id ids)

abbrev pub total_of : List (ℕ × ℕ) → ℕ
total_of [] = 0
total_of ((id, w) ∷ cs) = w + total_of cs

-- The candidate on whose weight a number falls, when the weights are laid end to end.
abbrev pub choose : ℕ → List (ℕ × ℕ) → Option ℕ
choose x [] = none
choose x ((id, w) ∷ cs) = if ltb x w then some (id % 2 ^ 16) else choose (x - w) cs

abbrev pub InRange : ℕ → Type 0
InRange w = (100 ≤ w) × (w ≤ 1000000)

-- The table that the loop builds from `total` on.
abbrev pub accumulated : ℕ → List (ℕ × ℕ) → List (ℕ × ℕ)
accumulated total [] = []
accumulated total ((id, w) ∷ cs) = (total + w, id % 2 ^ 16) ∷ accumulated (total + w) cs

assign-new :
    (k id : ℕ) (items : List (ℕ × ℕ))
    → All (λ i. i.0 < k) items
    → assign k id items ≡ items ++ (k, id) ∷ []
assign-new k id [] a = refl
assign-new k id ((j, v) ∷ items) (h, a) =
    rw (before j h) (ap (◌∷◌ (j, v)) (assign-new k id items a))
  where
    before : (j : ℕ) → j < k → (j == k) ≡ false
    before j h = ground arith

All-append_later :
    (t k id : ℕ) (items : List (ℕ × ℕ))
    → t < k
    → All (λ i. i.0 ≤ t) items
    → All (λ i. i.0 ≤ k) (items ++ (k, id) ∷ [])
All-append_later t k id [] h a = (omega arith, tt)
All-append_later t k id ((j, v) ∷ items) h (b, a) = (omega arith, All-append_later t k id items h a)

All-later :
    (t k : ℕ) (items : List (ℕ × ℕ)) → t < k → All (λ i. i.0 ≤ t) items → All (λ i. i.0 < k) items
All-later t k [] h a = tt
All-later t k ((j, v) ∷ items) h (b, a) = (omega arith, All-later t k items h a)

pub get_elem?-some : (s : List ℕ) (i : ℕ) → i < length s → (w : ℕ) × (get_elem? s i ≡ some w)
get_elem?-some [] i h = absurd (omega arith)
get_elem?-some (x ∷ s) zero h = (x, refl)
get_elem?-some (x ∷ s) (suc i) h = get_elem?-some s i (omega arith)

pub get_elem?-InRange : (s : List ℕ) (i w : ℕ) → All InRange s → get_elem? s i ≡ some w → InRange w
get_elem?-InRange [] i w a e = absurd (true≢false (ap is_none e))
get_elem?-InRange (x ∷ s) zero w (r, a) e = subst InRange (some-inj e) r
get_elem?-InRange (x ∷ s) (suc i) w (r, a) e = get_elem?-InRange s i w a e

pub weigh-accumulated :
    (health : List ℕ) (last_id : ℕ) (ids : List ℕ) (total : ℕ) (items : List (ℕ × ℕ))
    → All InRange health
    → All (λ id. id < length health) ids
    → All (λ i. i.0 ≤ total) items
    → weigh health last_id ids total items
      ≡ some (
        total + total_of (candidates health last_id ids),
        items ++ accumulated total (candidates health last_id ids),
      )
unfolding weigh
weigh-accumulated health last_id [] total items r a k =
    ap₂ (λ t i. some (t, i)) (omega arith) (sym (append-nil items))
weigh-accumulated health last_id (id ∷ ids) total items r (small, a) k =
    elim (Bool-cases (id == last_id)) [
      | inl e ↦ rw e (weigh-accumulated health last_id ids total items r a k)
      | inr e ↦
          let (w, g) = get_elem?-some health id small in
          let (low, high) = get_elem?-InRange health id w r g in
          rw e rw g (
            ap (weigh health last_id ids (total + w)) (
              assign-new (total + w) (id % 2 ^ 16) items
                (All-later total (total + w) items (omega arith) k))
            ∙ weigh-accumulated health last_id ids (total + w)
                (items ++ (total + w, id % 2 ^ 16) ∷ []) r a
                (All-append_later total (total + w) (id % 2 ^ 16) items (omega arith) k)
            ∙ ap₂ (λ t i. some (t, i)) (omega arith)
                (append_assoc items ((total + w, id % 2 ^ 16) ∷ [])
                  (accumulated (total + w) (candidates health last_id ids))))
    ]

ltb_shift : (x t w : ℕ) → t ≤ x → ltb (x - t) w ≡ ltb x (t + w)
ltb_shift x t w h = ground arith

not_less : (x k : ℕ) → ltb x k ≡ false → k ≤ x
not_less x k h = ground arith

pub upper_bound-choose :
    (x t : ℕ) (cs : List (ℕ × ℕ)) → t ≤ x → upper_bound x (accumulated t cs) ≡ choose (x - t) cs
upper_bound-choose x t [] h = refl
upper_bound-choose x t ((id, w) ∷ cs) h = elim (Bool-cases (ltb x (t + w))) [
  | inl e ↦ rw (ltb_shift x t w h) rw e refl
  | inr e ↦
      rw (ltb_shift x t w h) rw e (
        upper_bound-choose x (t + w) cs (not_less x (t + w) e)
        ∙ ap (λ k. choose k cs) (omega arith))
]
