-- ===== src/ConnPool/Bound.antt =====
-- evpp/httpc/conn_pool.cc: the idle connections of a loop are bounded, and reused.
use mathlib.Core.Bool.{true≢false}
use evpp.Base.{
  ℕ, ◌≤◌, ◌≡◌, refl, sym, ap, subst, ◌∙◌, true, false, List, [], ◌∷◌, ◌++◌, none, some, ◌==◌,
  if◌then◌else◌, leb, length, length-append, is_none, arith, Bool-cases, ◌⊎◌, inl, inr, ==_refl,
  some-inj, Option-cases,
}
use evpp.ConnPool.{ConnPool, find, assign, pop_back, taken, with_loop, get, stored, put}

abbrev Map : Type 0
Map = List (ℕ × List ℕ)

find-assign : (l : ℕ) (v : List ℕ) (m : Map) → find l (assign l v m) ≡ some v
unfolding find assign
find-assign l v [] = rw (==_refl l) refl
find-assign l v ((k, w) ∷ m) = elim (Bool-cases (k == l)) [
  | inl e ↦ rw e rw e refl
  | inr e ↦ rw e rw e (find-assign l v m)
]

assign-assign : (l : ℕ) (v w : List ℕ) (m : Map) → assign l v (assign l w m) ≡ assign l v m
unfolding assign
assign-assign l v w [] = rw (==_refl l) refl
assign-assign l v w ((k, u) ∷ m) = elim (Bool-cases (k == l)) [
  | inl e ↦ rw e rw e refl
  | inr e ↦ rw e rw e (ap (λ (n : Map). (k, u) ∷ n) (assign-assign l v w m))
]

find-hit : (l k : ℕ) (w : List ℕ) (m : Map) → (k == l) ≡ true → find l ((k, w) ∷ m) ≡ some w
unfolding find
find-hit l k w m e = rw e refl

find-miss : (l k : ℕ) (w : List ℕ) (m : Map) → (k == l) ≡ false → find l ((k, w) ∷ m) ≡ find l m
unfolding find
find-miss l k w m e = rw e refl

find-nil : (l : ℕ) → is_none (find l []) ≡ true
unfolding find
find-nil l = refl

assign-find : (l : ℕ) (v : List ℕ) (m : Map) → find l m ≡ some v → assign l v m ≡ m
unfolding assign
assign-find l v [] h = absurd (true≢false (sym (find-nil l) ∙ ap is_none h))
assign-find l v ((k, w) ∷ m) h = elim (Bool-cases (k == l)) [
  | inl e ↦ rw e (ap (λ (u : List ℕ). (k, u) ∷ m) (some-inj (sym h ∙ find-hit l k w m e)))
  | inr e ↦ rw e (ap (λ (n : Map). (k, w) ∷ n) (assign-find l v m (sym (find-miss l k w m e) ∙ h)))
]

pop_back-append : (v : List ℕ) (c : ℕ) → pop_back (v ++ c ∷ []) ≡ some (v, c)
unfolding pop_back
pop_back-append [] c = refl
pop_back-append (d ∷ []) c = refl
pop_back-append (d ∷ e ∷ v) c = rw (pop_back-append (e ∷ v) c) refl

-- No loop has more idle connections than `n`.
abbrev pub Bounded : ℕ → List (ℕ × List ℕ) → Type 0
Bounded n [] = 0 ≤ n
Bounded n ((k, v) ∷ m) = (length v ≤ n) × Bounded n m

find-Bounded : (n l : ℕ) (v : List ℕ) (m : Map) → Bounded n m → find l m ≡ some v → length v ≤ n
find-Bounded n l v [] b h = absurd (true≢false (sym (find-nil l) ∙ ap is_none h))
find-Bounded n l v ((k, w) ∷ m) b h = elim (Bool-cases (k == l)) [
  | inl e ↦ omega (arith, b.0, ap length (some-inj (sym h ∙ find-hit l k w m e)))
  | inr e ↦ find-Bounded n l v m b.1 (sym (find-miss l k w m e) ∙ h)
]

assign-Bounded :
    (n l : ℕ) (v : List ℕ) (m : Map) → length v ≤ n → Bounded n m → Bounded n (assign l v m)
unfolding assign
assign-Bounded n l v [] h b = (h, b)
assign-Bounded n l v ((k, w) ∷ m) h b = elim (Bool-cases (k == l)) [
  | inl e ↦ rw e (h, b.1)
  | inr e ↦ rw e (b.0, assign-Bounded n l v m h b.1)
]

get-back :
    (l fresh : ℕ) (v : List ℕ) (c : ℕ) (p : ConnPool)
    → find l p.pool ≡ some (v ++ c ∷ [])
    → get l fresh p ≡ (c, record p { pool = assign l v p.pool })
unfolding get with_loop taken
get-back l fresh v c p h = rw h rw h rw (pop_back-append v c) refl

-- `Put` on a loop that the pool knows keeps the bound; if there is room, the next `Get` on that
-- loop returns the connection and leaves the pool as it was before; if not, the pool drops it.
pub put_lem :
    (l c fresh : ℕ) (v : List ℕ) (p : ConnPool)
    → Bounded p.max_pool_size p.pool
    → find l p.pool ≡ some v
    → (p' : ConnPool) × (put l c p ≡ some p')
      × Bounded p'.max_pool_size p'.pool
      × (if leb p.max_pool_size (length v) then p' ≡ p else get l fresh p' ≡ (c, p))
unfolding put stored
put_lem l c fresh v p b h = elim (Bool-cases (leb p.max_pool_size (length v))) [
  | inl e ↦ (p, rw h rw e refl, b, rw e refl)
  | inr e ↦
      let q : ConnPool = record p { pool = assign l (v ++ c ∷ []) p.pool } in
      (
        q,
        rw h rw e refl,
        assign-Bounded p.max_pool_size l (v ++ c ∷ []) p.pool (room e) b,
        rw e (
            get-back l fresh v c q (find-assign l (v ++ c ∷ []) p.pool)
            ∙ ap (λ (m : Map). (c, record p { pool = m }))
                (assign-assign l v (v ++ c ∷ []) p.pool ∙ assign-find l v p.pool h)),
      )
]
  where
    room : leb p.max_pool_size (length v) ≡ false → length (v ++ c ∷ []) ≤ p.max_pool_size
    room e = ground (arith, length-append v (c ∷ []))

get-unknown :
    (l fresh : ℕ) (p : ConnPool)
    → find l p.pool ≡ none
    → get l fresh p ≡ (fresh, record p { pool = assign l [] p.pool })
unfolding get with_loop taken pop_back
get-unknown l fresh p h = rw h rw (find-assign l [] p.pool) refl

get-empty : (l fresh : ℕ) (p : ConnPool) → find l p.pool ≡ some [] → get l fresh p ≡ (fresh, p)
unfolding get with_loop taken pop_back
get-empty l fresh p h = rw h rw h refl

snoc-cases : (v : List ℕ) → (v ≡ []) ⊎ ((w : List ℕ) × (c : ℕ) × (v ≡ w ++ c ∷ []))
snoc-cases [] = inl refl
snoc-cases (d ∷ v) = elim (snoc-cases v) [
  | inl e ↦ inr ([], d, ap (λ (u : List ℕ). d ∷ u) e)
  | inr (w, c, e) ↦ inr (d ∷ w, c, ap (λ (u : List ℕ). d ∷ u) e)
]

-- The bound holds, the loop is known, and the connection is new or the loop's last idle one.
abbrev pub Got : ℕ → ℕ → ConnPool → ℕ × ConnPool → Type 0
Got l fresh p (c, p') =
    Bounded p'.max_pool_size p'.pool
    × ((v : List ℕ) × (find l p'.pool ≡ some v)
        × ((c ≡ fresh) ⊎ (find l p.pool ≡ some (v ++ c ∷ []))))

get-Got_known :
    (l fresh : ℕ) (p : ConnPool) (v : List ℕ)
    → Bounded p.max_pool_size p.pool
    → find l p.pool ≡ some v
    → Got l fresh p (get l fresh p)
get-Got_known l fresh p v b h = elim (snoc-cases v) [
  | inl e ↦
      let h' = h ∙ ap (λ (u : List ℕ). some u) e in
      subst (Got l fresh p) (sym (get-empty l fresh p h')) (b, ([], h', inl refl))
  | inr (w, c, e) ↦
      let h' = h ∙ ap (λ (u : List ℕ). some u) e in
      subst (Got l fresh p) (sym (get-back l fresh w c p h')) (
        assign-Bounded p.max_pool_size l w p.pool (shorter w c h') b,
        (w, find-assign l w p.pool, inr h'),
      )
]
  where
    shorter : (w : List ℕ) (c : ℕ) → find l p.pool ≡ some (w ++ c ∷ []) → length w ≤ p.max_pool_size
    shorter w c h' =
        omega (
          arith,
          find-Bounded p.max_pool_size l (w ++ c ∷ []) p.pool b h',
          length-append w (c ∷ []),
        )

-- `Get` keeps the bound, and the pool knows the loop afterwards, so that the `Put` that gives the
-- connection back does not meet the end of the map; a connection that it does not make is the
-- loop's last idle one.
pub get_lem :
    (l fresh : ℕ) (p : ConnPool) → Bounded p.max_pool_size p.pool → Got l fresh p (get l fresh p)
get_lem l fresh p b = elim (Option-cases (find l p.pool)) [
  | inl h ↦ subst (Got l fresh p) (sym (get-unknown l fresh p h)) (
    assign-Bounded p.max_pool_size l [] p.pool (omega arith) b,
    ([], find-assign l [] p.pool, inl refl),
  )
  | inr (v, h) ↦ get-Got_known l fresh p v b h
]
