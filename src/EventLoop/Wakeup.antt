-- ===== src/EventLoop/Wakeup.antt =====
-- evpp/event_loop.cc, `QueueInLoop` from any number of threads against the loop's own thread. Each
-- step is one access of the shared state: the queue under its mutex, the atomic flag, the pipe. The
-- loop runs, so its pipe is there.
use evpp.Base.{
  ℕ, ◌+◌, ◌-◌, ◌<◌, ◌≡◌, refl, sym, ap, ◌∙◌, Bool, true, false, List, [], ◌∷◌, ◌++◌, arith,
  append-nil, append_assoc, inl, inr, Bool-cases,
}
use evpp.EventLoop.{is_empty}

abbrev bit : Bool → ℕ
bit true = 1
bit false = 0

pub record World (A : Type 0) : Type 0 where
  pub queue : List A
  pub notified : Bool
  pub pipe : ℕ
  -- The threads in `QueueInLoop` that are about to read the flag, to set it, to write to the pipe.
  pub checking : ℕ
  pub storing : ℕ
  pub notifying : ℕ
  -- The loop has read the pipe and is about to call `DoPendingFunctors`.
  pub awake : Bool
  -- The tasks queued and the tasks taken to be run, in order.
  pub submitted : List A
  pub taken : List A

module _ {A : Type 0} where
  unfoldable pub quiet : World A
  quiet = record {
    queue = [];
    notified = false;
    pipe = 0;
    checking = 0;
    storing = 0;
    notifying = 0;
    awake = false;
    submitted = [];
    taken = [];
  }

  pub data Step (w : World A) : World A → Type 0 where
    -- A thread puts a task into the queue.
    enqueue :
        (t : A)
        → Step w (record w {
          queue = w.queue ++ t ∷ [];
          checking = w.checking + 1;
          submitted = w.submitted ++ t ∷ [];
        })
    -- It finds the flag set, and is done.
    seen : 0 < w.checking → w.notified ≡ true → Step w (record w { checking = w.checking - 1 })
    -- It finds the flag clear,
    unseen :
        0 < w.checking
        → w.notified ≡ false
        → Step w (record w { checking = w.checking - 1; storing = w.storing + 1 })
    -- sets it,
    store :
        0 < w.storing
        → Step w
            (record w { storing = w.storing - 1; notifying = w.notifying + 1; notified = true })
    -- and writes a byte, which fails if the pipe is full.
    notify : 0 < w.notifying → Step w (record w { notifying = w.notifying - 1; pipe = w.pipe + 1 })
    notify_full : 0 < w.notifying → 0 < w.pipe → Step w (record w { notifying = w.notifying - 1 })
    -- The loop reads at most 4096 bytes,
    wake : w.awake ≡ false → 0 < w.pipe → Step w (record w { pipe = w.pipe - 4096; awake = true })
    -- and takes the whole queue, the flag cleared under the mutex.
    take_all :
        w.awake ≡ true
        → Step w
            (record w { queue = []; notified = false; awake = false; taken = w.taken ++ w.queue })

  pub data Reach (w : World A) : World A → Type 0 where
    here : Reach w w
    next : {u v : World A} → Reach w u → Step u v → Reach w v

  -- The steps of the loop's own thread.
  abbrev pub is_loop_step : {w u : World A} → Step w u → Bool
  is_loop_step (wake s p) = true
  is_loop_step (take_all s) = true
  is_loop_step _ = false

  pub data LoopRun (w : World A) : World A → Type 0 where
    idle : LoopRun w w
    more : {u v : World A} → LoopRun w u → (s : Step u v) → is_loop_step s ≡ true → LoopRun w v

  -- A waiting task has a thread, a byte or the loop on its way to it; so has a set flag, which
  -- keeps other threads from writing.
  record IsAttended (w : World A) : Type 0 where
    waiting :
        is_empty w.queue ≡ false → 0 < w.checking + w.storing + w.notifying + w.pipe + bit w.awake
    flagged : w.notified ≡ true → 0 < w.notifying + w.pipe + bit w.awake
    in_order : w.taken ++ w.queue ≡ w.submitted

  Step-IsAttended : {w u : World A} → Step w u → IsAttended w → IsAttended u
  Step-IsAttended {w} (enqueue t) a = record {
    waiting = λ h. omega arith;
    flagged = a.flagged;
    in_order = sym (append_assoc w.taken w.queue (t ∷ [])) ∙ ap (λ x. x ++ t ∷ []) a.in_order;
  }
  Step-IsAttended {w} (seen p n) a = record {
    waiting = λ h. omega (arith, a.flagged n);
    flagged = a.flagged;
    in_order = a.in_order;
  }
  Step-IsAttended {w} (unseen p n) a = record {
    waiting = λ h. omega (arith, a.waiting h);
    flagged = a.flagged;
    in_order = a.in_order;
  }
  Step-IsAttended {w} (store p) a = record {
    waiting = λ h. omega arith;
    flagged = λ h. omega arith;
    in_order = a.in_order;
  }
  Step-IsAttended {w} (notify p) a = record {
    waiting = λ h. omega arith;
    flagged = λ h. omega arith;
    in_order = a.in_order;
  }
  Step-IsAttended {w} (notify_full p q) a = record {
    waiting = λ h. omega arith;
    flagged = λ h. omega arith;
    in_order = a.in_order;
  }
  Step-IsAttended {w} (wake s p) a = record {
    waiting = λ h. omega arith;
    flagged = λ h. omega arith;
    in_order = a.in_order;
  }
  Step-IsAttended {w} (take_all s) a = record {
    waiting = λ h. cc;
    flagged = λ h. cc;
    in_order = append-nil (w.taken ++ w.queue) ∙ a.in_order;
  }

  Reach-IsAttended : {w u : World A} → IsAttended w → Reach w u → IsAttended u
  Reach-IsAttended a here = a
  Reach-IsAttended a (next r s) = Step-IsAttended s (Reach-IsAttended a r)

  quiet-IsAttended : IsAttended quiet
  unfolding quiet
  quiet-IsAttended = record { waiting = λ h. cc; flagged = λ h. cc; in_order = refl }

  abbrev served : World A → World A
  served w = record w { queue = []; notified = false; awake = false; taken = w.taken ++ w.queue }

  -- In every interleaving, the tasks taken to be run and then those in the queue are those that
  -- were queued, in order.
  pub taken_in_order : {w : World A} → Reach quiet w → w.taken ++ w.queue ≡ w.submitted
  taken_in_order r = (Reach-IsAttended quiet-IsAttended r).in_order

  -- No wake-up is lost: in every interleaving, when a task waits and no thread is still in
  -- `QueueInLoop`, the loop's own steps alone reach a state in which every task has been taken.
  pub no_lost_wakeup :
      {w : World A}
      → Reach quiet w
      → is_empty w.queue ≡ false
      → w.checking + w.storing + w.notifying ≡ 0
      → (u : World A) × LoopRun w u × (u.queue ≡ []) × (u.taken ≡ w.submitted)
  no_lost_wakeup {w} r h z = elim (Bool-cases w.awake) [
    | inl up ↦ (served w, more idle (take_all up) refl, refl, inv.in_order)
    | inr down ↦
        let p : 0 < w.pipe = omega (arith, inv.waiting h, ap bit down) in
        (
          served (record w { pipe = w.pipe - 4096; awake = true }),
          more (more idle (wake down p) refl) (take_all refl) refl,
          refl,
          inv.in_order,
        )
  ]
    where
      inv : IsAttended w
      inv = Reach-IsAttended quiet-IsAttended r
