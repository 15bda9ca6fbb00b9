-- ===== src/EventLoop/Queue.antt =====
-- evpp/event_loop.cc: tasks run in the order in which they were queued, each once.
use evpp.Base.{
  ℕ, zero, suc, ◌+◌, ◌≤◌, ◌<◌, ◌≡◌, refl, sym, ap, ◌∙◌, Bool, true, false, List, [], ◌∷◌, ◌++◌,
  some, arith, length, length-append, append-nil, append_assoc, All, inl, inr, ◌⊎◌, subst, ◌||◌,
  if◌then◌else◌,
}
use evpp.EventLoop.{
  EventLoop, is_empty, notify, queue_in_loop, queue_all, run_functor, run_functors,
  do_pending_functors, run_counted, drain,
}

-- The counter counts the queue and the `k` tasks taken from it that have not ended, and the flag
-- is set while a task waits.
pub record IsCounted {A : Type 0} (k : ℕ) (l : EventLoop A) : Type 0 where
  pub count : l.pending_functor_count ≡ length l.pending_functors + k
  pub flag : (is_empty l.pending_functors || l.notified) ≡ true

List-cases {ℓ} : {A : Type ℓ} (xs : List A) → (xs ≡ []) ⊎ ((x : A) × (r : List A) × (xs ≡ x ∷ r))
List-cases [] = inl refl
List-cases (x ∷ r) = inr (x, r, refl)

module _ {A : Type 0} where
  queue_in_loop-pending :
      (t : A) (l : EventLoop A)
      → ((queue_in_loop t l).pending_functors ≡ l.pending_functors ++ t ∷ [])
        × ((queue_in_loop t l).ran ≡ l.ran)
        × ((queue_in_loop t l).notified ≡ true)
        × ((queue_in_loop t l).pending_functor_count ≡ l.pending_functor_count + 1)
  unfolding queue_in_loop notify
  queue_in_loop-pending t l = ground arith

  queue_in_loop-IsCounted :
      (t : A) (k : ℕ) (l : EventLoop A) → IsCounted k l → IsCounted k (queue_in_loop t l)
  queue_in_loop-IsCounted t k l v =
      let (p, r, n, c) = queue_in_loop-pending t l in
      record {
        count = omega (arith, ap length p, length-append l.pending_functors (t ∷ []), v.count);
        flag = rw n (or_true (is_empty (queue_in_loop t l).pending_functors));
      }
    where
      or_true : (b : Bool) → (b || true) ≡ true
      or_true true = refl
      or_true false = refl

  queue_all-lem :
      (ts : List A) (k : ℕ) (l : EventLoop A)
      → ((queue_all ts l).pending_functors ≡ l.pending_functors ++ ts)
        × ((queue_all ts l).ran ≡ l.ran)
        × (IsCounted k l → IsCounted k (queue_all ts l))
  unfolding queue_all
  queue_all-lem [] k l = (sym (append-nil l.pending_functors), refl, λ v. v)
  queue_all-lem (t ∷ ts) k l =
      let (p, r, n, c) = queue_in_loop-pending t l in
      let (ps, rs, keep) = queue_all-lem ts k (queue_in_loop t l) in
      (
        ps ∙ ap (λ x. x ++ ts) p ∙ append_assoc l.pending_functors (t ∷ []) ts,
        rs ∙ r,
        λ v. keep (queue_in_loop-IsCounted t k l v),
      )

  module _ (spawn : A → List A) where
    -- What a row of tasks queues while it runs.
    unfoldable pub spawned : List A → List A
    spawned [] = []
    spawned (t ∷ ts) = spawn t ++ spawned ts

    run_counted-lem :
        (t : A) (k : ℕ) (l : EventLoop A)
        → ((run_counted spawn t l).pending_functors ≡ l.pending_functors ++ spawn t)
          × ((run_counted spawn t l).ran ≡ l.ran ++ t ∷ [])
          × (IsCounted (suc k) l → IsCounted k (run_counted spawn t l))
    unfolding run_counted run_functor
    run_counted-lem t k l =
        let started : EventLoop A = record l { ran = l.ran ++ t ∷ [] } in
        let (p, r, keep) = queue_all-lem (spawn t) (suc k) started in
        (
          p,
          r,
          λ v.
              let v' = keep (record { count = v.count; flag = v.flag }) in
              record { count = omega (arith, v'.count); flag = v'.flag },
        )

    run_functors-lem :
        (ts : List A) (l : EventLoop A)
        → ((run_functors spawn ts l).ran ≡ l.ran ++ ts)
          × ((run_functors spawn ts l).pending_functors ≡ l.pending_functors ++ spawned ts)
          × (IsCounted (length ts) l → IsCounted 0 (run_functors spawn ts l))
    unfolding run_functors spawned
    run_functors-lem [] l = (sym (append-nil l.ran), sym (append-nil l.pending_functors), λ v. v)
    run_functors-lem (t ∷ ts) l =
        let (p, r, keep) = run_counted-lem t (length ts) l in
        let (rs, ps, keeps) = run_functors-lem ts (run_counted spawn t l) in
        (
          rs ∙ ap (λ x. x ++ ts) r ∙ append_assoc l.ran (t ∷ []) ts,
          ps ∙ ap (λ x. x ++ spawned ts) p ∙ append_assoc l.pending_functors (spawn t) (spawned ts),
          λ v. keeps (keep v),
        )

    -- From a loop whose counter and flag are right, `DoPendingFunctors` runs the tasks that waited,
    -- in the order in which they were queued and each once; what they queue meanwhile waits for the
    -- next time; and the counter and the flag stay right.
    pub do_pending_functors_lem :
        (l : EventLoop A)
        → IsCounted 0 l
        → let l' = do_pending_functors spawn l in
          (l'.ran ≡ l.ran ++ l.pending_functors)
          × (l'.pending_functors ≡ spawned l.pending_functors)
          × IsCounted 0 l'
    unfolding do_pending_functors
    do_pending_functors_lem l v =
        let taken : EventLoop A = record l { notified = false; pending_functors = [] } in
        let (r, p, keep) = run_functors-lem l.pending_functors taken in
        (r, p, keep (record { count = omega (arith, v.count); flag = refl }))

    -- The tasks of `n` rounds, round by round.
    unfoldable pub rounds : ℕ → List A → List A
    rounds zero ts = []
    rounds (suc n) ts = ts ++ rounds n (spawned ts)

    rounds-nil : (n : ℕ) → rounds n [] ≡ []
    unfolding rounds spawned
    rounds-nil zero = refl
    rounds-nil (suc n) = rounds-nil n

    module _ (rank : A → ℕ) (falls : (t : A) → All (λ u. rank u < rank t) (spawn t)) where
      Below : ℕ → List A → Type 0
      Below n = All (λ t. rank t < n)

      Below-mono : (m n : ℕ) (ts : List A) → m ≤ n → Below m ts → Below n ts
      unfolding Below
      Below-mono m n [] h b = tt
      Below-mono m n (t ∷ ts) h b = (omega arith, Below-mono m n ts h b.1)

      Below-append : (n : ℕ) (ts us : List A) → Below n ts → Below n us → Below n (ts ++ us)
      unfolding Below
      Below-append n [] us b c = c
      Below-append n (t ∷ ts) us b c = (b.0, Below-append n ts us b.1 c)

      spawned-Below : (n : ℕ) (ts : List A) → Below (suc n) ts → Below n (spawned ts)
      unfolding spawned Below
      spawned-Below n [] b = tt
      spawned-Below n (t ∷ ts) b =
          Below-append n (spawn t) (spawned ts)
            (Below-mono (rank t) n (spawn t) (omega arith) (falls t)) (spawned-Below n ts b.1)

      Drains : ℕ → EventLoop A → Type 0
      Drains n l =
          (l' : EventLoop A) × (drain spawn (suc n) l ≡ some l')
          × (l'.pending_functors ≡ [])
          × (l'.ran ≡ l.ran ++ rounds (suc n) l.pending_functors)
          × IsCounted 0 l'

      drain_step :
          (n : ℕ) (l : EventLoop A) {b : Bool}
          → is_empty (do_pending_functors spawn l).pending_functors ≡ b
          → drain spawn (suc n) l ≡ (
              if b
              then some (do_pending_functors spawn l)
              else drain spawn n (do_pending_functors spawn l))
      unfolding drain
      drain_step n l e =
          ap
            (λ b.
              if b
              then some (do_pending_functors spawn l)
              else drain spawn n (do_pending_functors spawn l))
            e

      nothing_left :
          (n : ℕ) (l : EventLoop A)
          → IsCounted 0 l
          → (do_pending_functors spawn l).pending_functors ≡ []
          → Drains n l
      unfolding Drains rounds
      nothing_left n l v e =
          let (r, p, v') = do_pending_functors_lem l v in
          (
            do_pending_functors spawn l,
            drain_step n l (ap is_empty e),
            e,
            r
                ∙ ap (λ x. l.ran ++ x)
                    (sym (append-nil l.pending_functors)
                      ∙ ap (λ x. l.pending_functors ++ x)
                          (sym (ap (rounds n) (sym p ∙ e) ∙ rounds-nil n))),
            v',
          )

      drain_from :
          (n : ℕ) (l : EventLoop A) → IsCounted 0 l → Below n l.pending_functors → Drains n l
      unfolding spawned Drains rounds
      drain_from zero l v b =
          nothing_left zero l v
            ((do_pending_functors_lem l v).1 ∙ ap spawned (below_zero l.pending_functors b))
        where
          below_zero : (ts : List A) → Below zero ts → ts ≡ []
          below_zero [] b = refl
          below_zero (t ∷ ts) b = absurd (unfold Below in omega arith)
      drain_from (suc n) l v b = elim (List-cases (do_pending_functors spawn l).pending_functors) [
        | inl e ↦ nothing_left (suc n) l v e
        | inr (t, ts, e) ↦ one_more (drain_from n (do_pending_functors spawn l) after.2 below) e
      ]
        where
          after :
              ((do_pending_functors spawn l).ran ≡ l.ran ++ l.pending_functors)
              × ((do_pending_functors spawn l).pending_functors ≡ spawned l.pending_functors)
              × IsCounted 0 (do_pending_functors spawn l)
          after = do_pending_functors_lem l v

          below : Below n (do_pending_functors spawn l).pending_functors
          below = subst (Below n) (sym after.1) (spawned-Below n l.pending_functors b)

          one_more :
              {t : A} {ts : List A}
              → Drains n (do_pending_functors spawn l)
              → (do_pending_functors spawn l).pending_functors ≡ t ∷ ts
              → Drains (suc n) l
          one_more (l', run, done, ran, v') e = (
            l',
            drain_step (suc n) l (ap is_empty e) ∙ run,
            done,
            ran
                ∙ ap (λ x. x ++ rounds (suc n) (do_pending_functors spawn l).pending_functors)
                    after.0
                ∙ append_assoc l.ran l.pending_functors _
                ∙ ap (λ x. l.ran ++ (l.pending_functors ++ rounds (suc n) x)) after.1,
            v',
          )

      -- `StopInLoop` drains the queue: if the tasks that a task queues are of lower rank, and the
      -- counter and the flag are right, as many rounds as the ranks and one more empty it, each task
      -- has run once, in the order of the rounds, and the counter is back at 0.
      pub drain_lem :
          (n : ℕ) (l : EventLoop A)
          → IsCounted 0 l
          → All (λ t. rank t < n) l.pending_functors
          → (l' : EventLoop A) × (drain spawn (suc n) l ≡ some l')
            × (l'.pending_functors ≡ [])
            × (l'.ran ≡ l.ran ++ rounds (suc n) l.pending_functors)
            × (l'.pending_functor_count ≡ 0)
      unfolding Drains Below
      drain_lem n l v b =
          let (l', run, done, ran, v') = drain_from n l v b in
          (l', run, done, ran, omega (arith, v'.count, ap length done))
