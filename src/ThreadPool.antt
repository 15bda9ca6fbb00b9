-- ===== src/ThreadPool.antt =====
-- evpp/event_loop_thread_pool.cc: the threads of a server, each with a loop of its own. A loop is
-- known by a number; the started and exited counters are arguments, as in the source.
pub mod Dispatch
pub mod Lifecycle
mod Tests
use evpp.Base.{
  ℕ, zero, suc, ◌+◌, ◌%◌, ◌^◌, Bool, true, false, not, List, [], ◌∷◌, ◌++◌, Option, none, some,
  ◌&&◌, ◌==◌, if◌then◌else◌, length, get_elem?, value_or, add_size,
}
use evpp.EventLoop.{Status, null, starting, running, stopping, stopped, is_running, is_empty}

pub record ThreadPool : Type 0 where
  pub status : Status
  pub base_loop : ℕ
  pub thread_num : ℕ
  -- The loops of the threads that have been started.
  pub threads : List ℕ
  -- `next_`, an int64_t as its 64-bit pattern.
  pub next : ℕ
  -- `stopped_cb_` is set.
  pub stopped_cb : Bool

unfoldable pub new : ℕ → ℕ → ThreadPool
new base n = record {
  status = null;
  base_loop = base;
  thread_num = n;
  threads = [];
  next = 0;
  stopped_cb = false;
}

-- `threads_[i]->loop()`, for an index in range
pub loop_at : ThreadPool → ℕ → ℕ
loop_at p i = value_or p.base_loop (get_elem? p.threads i)

pub can_dispatch : ThreadPool → Bool
can_dispatch p = is_running p.status && not (is_empty p.threads)

-- `GetNextLoop`: the sum with the size_t is unsigned.
pub get_next_loop : ThreadPool → ℕ × ThreadPool
get_next_loop p =
    if can_dispatch p
    then (loop_at p (p.next % length p.threads), record p { next = add_size p.next 1 })
    else (p.base_loop, p)

pub get_next_loop_with_hash : ℕ → ThreadPool → ℕ
get_next_loop_with_hash hash p =
    if can_dispatch p then loop_at p (hash % length p.threads) else p.base_loop

-- The loop of `Start` over the threads' own loops; `none` is a thread that fails to start.
unfoldable pub start_threads : List (Option ℕ) → ThreadPool → Bool × ThreadPool
start_threads [] p = (true, p)
start_threads (none ∷ ts) p = (false, p)
start_threads (some l ∷ ts) p = start_threads ts (record p { threads = p.threads ++ l ∷ [] })

unfoldable pub start : List (Option ℕ) → ThreadPool → Bool × ThreadPool
start ts p =
    if p.thread_num == 0
    then (true, record p { status = running })
    else start_threads ts (record p { status = starting })

unfoldable pub on_thread_started : ℕ → ThreadPool → ThreadPool
on_thread_started count p = if count == p.thread_num then record p { status = running } else p

-- Whether the stopped callback is called, and the pool.
pub on_thread_exited : ℕ → ThreadPool → Bool × ThreadPool
on_thread_exited count p =
    if count == p.thread_num
    then (p.stopped_cb, record p { status = stopped; stopped_cb = false })
    else (false, p)

-- `Stop` up to the end of its wait: the threads are told to stop.
pub begin_stop : Bool → ThreadPool → Bool × ThreadPool
begin_stop cb p =
    if p.thread_num == 0
    then (cb, record p { status = stopped })
    else (false, record p { status = stopping; stopped_cb = cb })

-- Its last statement.
pub end_stop : ThreadPool → ThreadPool
end_stop p = record p { status = stopped }

-- `Stop` that does not wait for the threads
pub stop : Bool → ThreadPool → Bool × ThreadPool
stop cb p = let (called, p') = begin_stop cb p in (called, end_stop p')

-- `Join` forgets the threads.
pub join : ThreadPool → ThreadPool
join p = record p { threads = [] }
