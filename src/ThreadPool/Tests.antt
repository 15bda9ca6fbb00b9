-- ===== src/ThreadPool/Tests.antt =====
-- Each theorem about evpp/event_loop_thread_pool.cc at a pool of its own.
use evpp.Base.{◌≡◌, refl, true, false, [], ◌∷◌, some, arith, ◌+◌}
use evpp.EventLoop.{running, stopped}
use evpp.ThreadPool.{ThreadPool, new, start, start_threads, on_thread_started, begin_stop, end_stop}
use evpp.ThreadPool.Lifecycle.{exits, stop_lem}

-- Three threads, and the loop of the second is next.
abbrev three : ThreadPool
three = record {
  status = running;
  base_loop = 0;
  thread_num = 3;
  threads = 11 ∷ 12 ∷ 13 ∷ [];
  next = 7;
  stopped_cb = false;
}

started :
    on_thread_started 3 (start (some 11 ∷ some 12 ∷ some 13 ∷ []) (new 0 3)).1
    ≡ record three { next = 0 }
unfolding new start start_threads on_thread_started
started = refl

stop_lem_example :
    let (called, p') = begin_stop true three in
    let (k, q) = exits (2 ∷ []) p' in
    let (j, r) = exits (1 ∷ 3 ∷ []) (end_stop q) in
    (called ≡ false) × (k + j ≡ 1) × (r ≡ record three { status = stopped })
stop_lem_example = stop_lem true three (2 ∷ []) (1 ∷ 3 ∷ []) (λ h. omega (arith, h)) refl
