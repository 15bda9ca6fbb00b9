-- ===== src/ThreadPool/Dispatch.antt =====
-- evpp/event_loop_thread_pool.cc: which loop gets a new connection.
use native.Mathlib.Nat.{mod-lt, mod_self, mod-eq_of_lt, mod-add-mod}
use evpp.Base.{
  ℕ, zero, suc, ◌+◌, ◌-◌, ◌%◌, ◌≤◌, ◌<◌, ◌^◌, ◌≡◌, refl, sym, ap, ap₂, subst, ◌∙◌, Bool, true,
  false, List, [], ◌∷◌, ◌++◌, some, arith, length, take-all, length-drop, get_elem?, take, drop,
  value_or, if◌then◌else◌,
}
use evpp.Base.Memory.{window, window-eq}
use evpp.EventLoop.{Status, running, is_empty}
use evpp.ThreadPool.{ThreadPool, loop_at, can_dispatch, get_next_loop, get_next_loop_with_hash}

zero_add : (k : ℕ) → 0 + k ≡ k
zero_add k = omega arith

suc_add : (j k : ℕ) → suc j + k ≡ suc (j + k)
suc_add j k = omega arith

add_zero : (k : ℕ) → k ≡ k + 0
add_zero k = omega arith

-- A pool whose threads run.
pub record IsServing (p : ThreadPool) : Type 0 where
  pub status : p.status ≡ running
  pub some_thread : 0 < length p.threads

nonempty : (xs : List ℕ) → 0 < length xs → is_empty xs ≡ false
nonempty [] h = absurd (omega arith)
nonempty (x ∷ xs) h = refl

IsServing-can_dispatch : {p : ThreadPool} → IsServing p → can_dispatch p ≡ true
unfolding can_dispatch
IsServing-can_dispatch {p} s = ground (arith, nonempty p.threads s.some_thread)

-- The loops that `k` calls in a row return.
pub dispatch : ℕ → ThreadPool → List ℕ
dispatch zero p = []
dispatch (suc k) p = let (l, p') = get_next_loop p in l ∷ dispatch k p'

suc_out : (i : ℕ) → suc (i + 1) ≡ suc i + 1
suc_out i = omega arith

window-suc :
    (xs : List ℕ) (d i k : ℕ)
    → i < length xs
    → window xs i (suc k) ≡ value_or d (get_elem? xs i) ∷ window xs (i + 1) k
window-suc [] d i k h = absurd (omega arith)
window-suc (x ∷ xs) d zero k h = refl
window-suc (x ∷ xs) d (suc i) k h =
    window-suc xs d i k (omega arith)
    ∙ ap (λ j. value_or d (get_elem? xs i) ∷ take k (drop j (x ∷ xs))) (suc_out i)

mod_next : (c n : ℕ) → c % n + 1 < n → (c + 1) % n ≡ c % n + 1
mod_next c n h = sym (mod-add-mod c n 1) ∙ mod-eq_of_lt h

-- The pool after `k` calls, as long as the counter does not wrap.
advance : ℕ → ThreadPool → ThreadPool
advance k p = record p { next = p.next + k }

module _ {p : ThreadPool} (s : IsServing p) where
  get_next_loop-advance :
      p.next + 1 < 2 ^ 64 → get_next_loop p ≡ (loop_at p (p.next % length p.threads), advance 1 p)
  unfolding get_next_loop advance
  get_next_loop-advance h =
      rw (IsServing-can_dispatch s)
        (ap (λ n. (loop_at p (p.next % length p.threads), record p { next = n })) (omega arith))

IsServing-advance : (k : ℕ) {p : ThreadPool} → IsServing p → IsServing (advance k p)
unfolding advance
IsServing-advance k s = record { status = s.status; some_thread = s.some_thread }

dispatch-suc :
    (k : ℕ) {p : ThreadPool}
    → IsServing p
    → p.next + 1 < 2 ^ 64
    → dispatch (suc k) p ≡ loop_at p (p.next % length p.threads) ∷ dispatch k (advance 1 p)
unfolding dispatch
dispatch-suc k s f = ap (λ r. r.0 ∷ dispatch k r.1) (get_next_loop-advance s f)

-- Up to the end of the row of threads.
segment :
    (k : ℕ) {p : ThreadPool}
    → IsServing p
    → p.next % length p.threads + k ≤ length p.threads
    → p.next + k < 2 ^ 64
    → dispatch k p ≡ window p.threads (p.next % length p.threads) k
unfolding dispatch advance loop_at
segment zero s h f = refl
segment (suc zero) {p} s h f =
    dispatch-suc 0 s (omega arith)
    ∙ sym (window-suc p.threads p.base_loop (p.next % length p.threads) 0 (omega arith))
segment (suc (suc k)) {p} s h f =
    dispatch-suc (suc k) s (omega arith)
    ∙ ap (λ xs. loop_at p (p.next % length p.threads) ∷ xs)
        (segment (suc k) {p = advance 1 p} (IsServing-advance 1 s) (omega (arith, step))
            (omega arith)
          ∙ window-eq p.threads ((p.next + 1) % length p.threads) (p.next % length p.threads + 1)
              (suc k) (suc k) step refl)
    ∙ sym (window-suc p.threads p.base_loop (p.next % length p.threads) (suc k) (omega arith))
  where
    step : (p.next + 1) % length p.threads ≡ p.next % length p.threads + 1
    step = mod_next p.next (length p.threads) (omega arith)

advance-zero : (p : ThreadPool) → p ≡ advance 0 p
unfolding advance
advance-zero p = ap (λ (n : ℕ). record p { next = n }) (add_zero p.next)

next_bound : (p : ThreadPool) (j : ℕ) → p.next + suc j < 2 ^ 64 → (advance 1 p).next + j < 2 ^ 64
unfolding advance
next_bound p j f = omega arith

twice : (p : ThreadPool) (j : ℕ) → advance j (advance 1 p) ≡ advance (suc j) p
unfolding advance
twice p j = ap (λ (n : ℕ). record p { next = n }) (shift p.next)
  where
    shift : (n : ℕ) → n + 1 + j ≡ n + suc j
    shift n = omega arith

dispatch-add :
    (j k : ℕ) {p : ThreadPool}
    → IsServing p
    → p.next + j < 2 ^ 64
    → dispatch (j + k) p ≡ dispatch j p ++ dispatch k (advance j p)
unfolding dispatch
dispatch-add zero k {p} s f = ap₂ dispatch (zero_add k) (advance-zero p)
dispatch-add (suc j) k {p} s f =
    ap (λ n. dispatch n p) (suc_add j k)
    ∙ dispatch-suc (j + k) s (omega arith)
    ∙ ap (λ xs. loop_at p (p.next % length p.threads) ∷ xs)
        (dispatch-add j k {p = advance 1 p} (IsServing-advance 1 s) (next_bound p j f)
          ∙ ap (λ q. dispatch j (advance 1 p) ++ dispatch k q) (twice p j))
    ∙ sym (ap (λ xs. xs ++ dispatch k (advance (suc j) p)) (dispatch-suc j s (omega arith)))

back_up : (n r : ℕ) → r < n → r + (n - r) ≡ n
back_up n r h = omega arith

-- As many calls of `GetNextLoop` in a row as a running pool has threads, without a wrap of the
-- counter, return the loop of each thread once, in the threads' order from `next_` modulo their
-- number on.
pub dispatch_lem :
    (p : ThreadPool)
    → p.status ≡ running
    → 0 < length p.threads
    → p.next + length p.threads < 2 ^ 64
    → let r = p.next % length p.threads in
      dispatch (length p.threads) p ≡ drop r p.threads ++ take r p.threads
unfolding advance
dispatch_lem p run h f =
    ap (λ k. dispatch k p) split_up
    ∙ dispatch-add (length p.threads - r) r s (omega arith)
    ∙ ap₂ (λ xs ys. xs ++ ys)
        (segment (length p.threads - r) s (omega arith) (omega arith) ∙ to_end)
        (segment r {p = advance (length p.threads - r) p} (IsServing-advance _ s)
            (omega (arith, around)) (omega arith)
          ∙ window-eq p.threads _ 0 r r around refl)
  where
    r : ℕ
    r = p.next % length p.threads

    s : IsServing p
    s = record { status = run; some_thread = h }

    split_up : length p.threads ≡ length p.threads - r + r
    split_up = omega (arith, mod-lt p.next h)

    to_end : window p.threads r (length p.threads - r) ≡ drop r p.threads
    to_end =
        take-all (length p.threads - r) (drop r p.threads) (omega (arith, length-drop r p.threads))

    around : (p.next + (length p.threads - r)) % length p.threads ≡ 0
    around =
        sym (mod-add-mod p.next (length p.threads) (length p.threads - r))
        ∙ ap (λ n. n % length p.threads) (back_up (length p.threads) r (mod-lt p.next h))
        ∙ mod_self (length p.threads)

get_elem?-some :
    (xs : List ℕ) (d i : ℕ) → i < length xs → get_elem? xs i ≡ some (value_or d (get_elem? xs i))
get_elem?-some [] d i h = absurd (omega arith)
get_elem?-some (x ∷ xs) d zero h = refl
get_elem?-some (x ∷ xs) d (suc i) h = get_elem?-some xs d i (omega arith)

-- By turn and by hash, one of the threads' loops if there are threads, else the base loop; the
-- loop of a hash stays the same after a turn.
abbrev pub HandsOut : ThreadPool → ℕ → Type 0
HandsOut p hash =
    let (turn, p') = get_next_loop p in
    let by_hash = get_next_loop_with_hash hash p in
    (get_next_loop_with_hash hash p' ≡ by_hash)
    × (if is_empty p.threads
        then (turn ≡ p.base_loop) × (by_hash ≡ p.base_loop) × (p' ≡ p)
        else (i : ℕ) × (j : ℕ) × (get_elem? p.threads i ≡ some turn)
          × (get_elem? p.threads j ≡ some by_hash))

hands_out :
    (b n : ℕ) (ts : List ℕ) (c : ℕ) (k : Bool) (hash : ℕ)
    → HandsOut
        (record {
          status = running;
          base_loop = b;
          thread_num = n;
          threads = ts;
          next = c;
          stopped_cb = k;
        })
        hash
unfolding get_next_loop get_next_loop_with_hash can_dispatch loop_at
hands_out b n [] c k hash = (refl, (refl, refl, refl))
hands_out b n (t ∷ ts) c k hash = (
  refl,
  (
    c % length (t ∷ ts),
    hash % length (t ∷ ts),
    get_elem?-some (t ∷ ts) b _ (mod-lt c (omega arith)),
    get_elem?-some (t ∷ ts) b _ (mod-lt hash (omega arith)),
  ),
)

-- A running pool with threads hands out the loop of one of them, never the base loop, whether by
-- turn or by hash, and by hash the same one before and after a turn; a running pool without threads
-- hands out the base loop and keeps its counter.
pub get_next_loop_lem : (p : ThreadPool) (hash : ℕ) → p.status ≡ running → HandsOut p hash
get_next_loop_lem p hash run =
    subst (λ (st : Status). HandsOut (record p { status = st }) hash) (sym run)
      (hands_out p.base_loop p.thread_num p.threads p.next p.stopped_cb hash)
