-- ===== src/ThreadPool/Lifecycle.antt =====
-- evpp/event_loop_thread_pool.cc: the end of the threads and the stopped callback.
use evpp.Base.{
  ℕ, ◌+◌, ◌≡◌, ◌≢◌, refl, sym, ap, ◌∙◌, Bool, true, false, List, [], ◌∷◌, ◌++◌, map, append-nil,
  append_assoc, Option, some, none, length, ==_refl, arith, ◌==◌, Bool-cases, inl, inr, ◌⊎◌,
}
use evpp.EventLoop.{running, stopping, stopped, starting}
use evpp.ThreadPool.{
  ThreadPool, start, start_threads, on_thread_started, on_thread_exited, begin_stop, end_stop, stop,
}

abbrev pub bit : Bool → ℕ
bit true = 1
bit false = 0

-- How often `n` is among the counts.
abbrev pub occurrences : ℕ → List ℕ → ℕ
occurrences n [] = 0
occurrences n (c ∷ cs) = bit (c == n) + occurrences n cs

-- Threads exit with these counts: how often the stopped callback is called, and the pool.
abbrev pub exits : List ℕ → ThreadPool → ℕ × ThreadPool
exits [] p = (0, p)
exits (c ∷ cs) p =
    let (called, p') = on_thread_exited c p in let (k, p'') = exits cs p' in (bit called + k, p'')

on_thread_exited-last :
    (c : ℕ) (p : ThreadPool)
    → (c == p.thread_num) ≡ true
    → on_thread_exited c p ≡ (p.stopped_cb, record p { status = stopped; stopped_cb = false })
unfolding on_thread_exited
on_thread_exited-last c p e = rw e refl

on_thread_exited-other :
    (c : ℕ) (p : ThreadPool) → (c == p.thread_num) ≡ false → on_thread_exited c p ≡ (false, p)
unfolding on_thread_exited
on_thread_exited-other c p e = rw e refl

plus_zero : (n : ℕ) → n + 0 ≡ n
plus_zero n = omega arith

zero_plus : (n : ℕ) → 0 + n ≡ n
zero_plus n = omega arith

one-split : (a b : ℕ) → a + b ≡ 1 → ((a ≡ 1) × (b ≡ 0)) ⊎ ((a ≡ 0) × (b ≡ 1))
one-split a b h = ground arith

-- No thread among these is the last.
exits-none : (cs : List ℕ) (p : ThreadPool) → occurrences p.thread_num cs ≡ 0 → exits cs p ≡ (0, p)
exits-none [] p h = refl
exits-none (c ∷ cs) p h = elim (Bool-cases (c == p.thread_num)) [
  | inl e ↦ absurd (omega (arith, h, ap bit e))
  | inr e ↦ rw (on_thread_exited-other c p e) rw (exits-none cs p (omega (arith, h))) refl
]

-- One of these is the last.
exits-once :
    (cs : List ℕ) (p : ThreadPool)
    → occurrences p.thread_num cs ≡ 1
    → exits cs p ≡ (bit p.stopped_cb, record p { status = stopped; stopped_cb = false })
exits-once [] p h = absurd (omega (arith, h))
exits-once (c ∷ cs) p h = elim (Bool-cases (c == p.thread_num)) [
  | inl e ↦
      rw (on_thread_exited-last c p e) rw
        (exits-none cs (record p { status = stopped; stopped_cb = false })
          (omega (arith, h, ap bit e)))
        (ap (λ (n : ℕ). (n, record p { status = stopped; stopped_cb = false }))
          (plus_zero (bit p.stopped_cb)))
  | inr e ↦ rw (on_thread_exited-other c p e) rw (exits-once cs p (omega (arith, h, ap bit e))) (
      ap (λ (n : ℕ). (n, record p { status = stopped; stopped_cb = false }))
        (zero_plus (bit p.stopped_cb)))
]

occurrences-append :
    (n : ℕ) (xs ys : List ℕ) → occurrences n (xs ++ ys) ≡ occurrences n xs + occurrences n ys
occurrences-append n [] ys = omega arith
occurrences-append n (x ∷ xs) ys = omega (arith, occurrences-append n xs ys)

-- A `Stop` with threads, of which some end before it returns and the others after, in any order
-- but each with its own count: it does not call the stopped callback itself, the last thread to
-- end does, once, and at the end the pool is stopped and has let go of the callback.
pub stop_lem :
    (cb : Bool) (p : ThreadPool) (before after : List ℕ)
    → p.thread_num ≢ 0
    → occurrences p.thread_num (before ++ after) ≡ 1
    → let (called, p') = begin_stop cb p in
      let (k, q) = exits before p' in
      let (j, r) = exits after (end_stop q) in
      (called ≡ false) × (k + j ≡ bit cb) × (r ≡ record p { status = stopped; stopped_cb = false })
unfolding begin_stop end_stop
stop_lem cb p before after some_thread once =
    elim (one-split (occurrences p.thread_num before) (occurrences p.thread_num after)
      (sym (occurrences-append p.thread_num before after) ∙ once)) [
        | inl (b, a) ↦
            rw threads rw (exits-once before (record p { status = stopping; stopped_cb = cb }) b) rw
              (exits-none after (record p { status = stopped; stopped_cb = false }) a)
              (refl, plus_zero (bit cb), refl)
        | inr (b, a) ↦
            rw threads rw (exits-none before (record p { status = stopping; stopped_cb = cb }) b) rw
              (exits-once after (record p { status = stopped; stopped_cb = cb }) a)
              (refl, zero_plus (bit cb), refl)
      ]
  where
    threads : (p.thread_num == 0) ≡ false
    threads = ground arith

-- A `Stop` that does not wait stores `kStopped` although no thread has ended yet, and the stopped
-- callback is still to be called.
pub stop_early :
    (cb : Bool) (p : ThreadPool)
    → p.thread_num ≢ 0
    → stop cb p ≡ (false, record p { status = stopped; stopped_cb = cb })
unfolding stop begin_stop end_stop
stop_early cb p some_thread = rw threads refl
  where
    threads : (p.thread_num == 0) ≡ false
    threads = ground arith

start_threads-map :
    (ls : List ℕ) (p : ThreadPool)
    → start_threads (map some ls) p ≡ (true, record p { threads = p.threads ++ ls })
unfolding start_threads
start_threads-map [] p =
    ap (λ (ts : List ℕ). (true, record p { threads = ts })) (sym (append-nil p.threads))
start_threads-map (l ∷ ls) p =
    start_threads-map ls (record p { threads = p.threads ++ l ∷ [] })
    ∙ ap (λ (ts : List ℕ). (true, record p { threads = ts })) (append_assoc p.threads (l ∷ []) ls)

start_threads-failed :
    (ls : List ℕ) (ts : List (Option ℕ)) (p : ThreadPool)
    → start_threads (map some ls ++ none ∷ ts) p ≡ (false, record p { threads = p.threads ++ ls })
unfolding start_threads
start_threads-failed [] ts p =
    ap (λ (us : List ℕ). (false, record p { threads = us })) (sym (append-nil p.threads))
start_threads-failed (l ∷ ls) ts p =
    start_threads-failed ls ts (record p { threads = p.threads ++ l ∷ [] })
    ∙ ap (λ (us : List ℕ). (false, record p { threads = us })) (append_assoc p.threads (l ∷ []) ls)

-- `Start` of a pool whose threads all start returns true, and with the last thread's report the
-- pool is running and has their loops in order.
pub start_lem :
    (ls : List ℕ) (p : ThreadPool)
    → length ls ≡ p.thread_num
    → p.threads ≡ []
    → let (ok, p') = start (map some ls) p in
      (ok ≡ true)
      × (on_thread_started p.thread_num p' ≡ record p { status = running; threads = ls })
unfolding start on_thread_started
start_lem [] p all fresh =
    rw empty rw (==_refl p.thread_num)
      (refl, ap (λ (ts : List ℕ). record p { status = running; threads = ts }) fresh)
  where
    empty : (p.thread_num == 0) ≡ true
    empty = ground arith
start_lem (l ∷ ls) p all fresh =
    rw some_thread rw (start_threads-map (l ∷ ls) (record p { status = starting })) rw
      (==_refl p.thread_num)
      (refl, ap (λ (ts : List ℕ). record p { status = running; threads = ts ++ l ∷ ls }) fresh)
  where
    some_thread : (p.thread_num == 0) ≡ false
    some_thread = ground arith

-- If a thread fails to start, `Start` returns false and the pool stays at `kStarting`, with the
-- threads that had started.
pub start_failed :
    (ls : List ℕ) (ts : List (Option ℕ)) (p : ThreadPool)
    → p.thread_num ≢ 0
    → start (map some ls ++ none ∷ ts) p
      ≡ (false, record p { status = starting; threads = p.threads ++ ls })
unfolding start
start_failed ls ts p some_thread =
    rw threads (start_threads-failed ls ts (record p { status = starting }))
  where
    threads : (p.thread_num == 0) ≡ false
    threads = ground arith
