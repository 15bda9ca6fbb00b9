-- ===== src/EventLoop/Tests.antt =====
-- Each theorem about evpp/event_loop.cc at a loop of its own.
use evpp.Base.{ℕ, zero, suc, ◌≡◌, refl, true, false, List, [], ◌∷◌, some, arith, All, ◌<◌}
use evpp.EventLoop.{EventLoop, drain, running}
use evpp.EventLoop.Queue.{IsCounted, spawned, rounds, drain_lem}
use evpp.EventLoop.Wakeup.{
  World, Reach, LoopRun, quiet, enqueue, unseen, store, notify, here, next, no_lost_wakeup,
}

-- Task n + 1 queues task n.
countdown : ℕ → List ℕ
countdown zero = []
countdown (suc n) = n ∷ []

countdown-falls : (t : ℕ) → All (λ u. u < t) (countdown t)
unfolding countdown
countdown-falls zero = tt
countdown-falls (suc n) = (omega arith, tt)

abbrev two_waiting : EventLoop ℕ
two_waiting = record {
  status = running;
  pending_functors = 2 ∷ 0 ∷ [];
  pending_functor_count = 2;
  notified = true;
  watcher = true;
  pipe = 1;
  ran = [];
}

two_waiting-IsCounted : IsCounted 0 two_waiting
two_waiting-IsCounted = record { count = refl; flag = refl }

drain_lem_example :
    (l' : EventLoop ℕ) × (drain countdown 4 two_waiting ≡ some l')
    × (l'.pending_functors ≡ [])
    × (l'.ran ≡ rounds countdown 4 (2 ∷ 0 ∷ []))
    × (l'.pending_functor_count ≡ 0)
drain_lem_example =
    drain_lem countdown (λ n. n) countdown-falls 3 two_waiting two_waiting-IsCounted (omega arith)

order_of_rounds : rounds countdown 4 (2 ∷ 0 ∷ []) ≡ 2 ∷ 0 ∷ 1 ∷ 0 ∷ []
unfolding rounds spawned countdown
order_of_rounds = refl

-- One thread has queued task 7 and written its byte.
abbrev submitted_one : World ℕ
submitted_one = record {
  queue = 7 ∷ [];
  notified = true;
  pipe = 1;
  checking = 0;
  storing = 0;
  notifying = 0;
  awake = false;
  submitted = 7 ∷ [];
  taken = [];
}

submitted_one-Reach : Reach quiet submitted_one
unfolding quiet
submitted_one-Reach =
    next (next (next (next here (enqueue 7)) (unseen (omega arith) refl)) (store (omega arith)))
      (notify (omega arith))

no_lost_wakeup_example :
    (u : World ℕ) × LoopRun submitted_one u × (u.queue ≡ []) × (u.taken ≡ 7 ∷ [])
no_lost_wakeup_example = no_lost_wakeup submitted_one-Reach refl refl
