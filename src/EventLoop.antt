-- ===== src/EventLoop.antt =====
-- evpp/event_loop.cc and the pipe of event_watcher.cc: the queue of tasks that other threads hand
-- to a loop, as the build with std::vector and a mutex has it. A task is any value; `spawn` gives
-- the tasks that it queues by `QueueInLoop` while it runs on the loop's thread.
pub mod Queue
pub mod Wakeup
mod Tests
use evpp.Base.{
  ℕ, zero, suc, ◌+◌, ◌-◌, Bool, true, false, not, List, [], ◌∷◌, ◌++◌, Option, none, some, ◌&&◌,
  if◌then◌else◌, length, min,
}

-- `ServerStatus::Status`
pub data Status : Type 0 where
  null initializing initialized starting running stopping stopped : Status

abbrev pub is_running : Status → Bool
is_running running = true
is_running _ = false

-- `IsPendingQueueEmpty`
abbrev pub is_empty {ℓ} : {A : Type ℓ} → List A → Bool
is_empty [] = true
is_empty (x ∷ xs) = false

pub record EventLoop (A : Type 0) : Type 0 where
  pub status : Status
  pub pending_functors : List A
  pub pending_functor_count : ℕ
  pub notified : Bool
  -- `watcher_` is alive, and the bytes in its pipe.
  pub watcher : Bool
  pub pipe : ℕ
  -- The tasks that have run, in order.
  pub ran : List A

module _ {A : Type 0} where
  pub new : EventLoop A
  new = record {
    status = initialized;
    pending_functors = [];
    pending_functor_count = 0;
    notified = false;
    watcher = true;
    pipe = 0;
    ran = [];
  }

  -- `Notify` of the pipe, if there is one
  notify : EventLoop A → EventLoop A
  notify l = if l.watcher then record l { pipe = l.pipe + 1 } else l

  pub queue_in_loop : A → EventLoop A → EventLoop A
  queue_in_loop t l =
      let l' : EventLoop A = record l {
        pending_functors = l.pending_functors ++ t ∷ [];
        pending_functor_count = l.pending_functor_count + 1;
      } in
      if l.notified then l' else notify (record l' { notified = true })

  pub queue_all : List A → EventLoop A → EventLoop A
  queue_all [] l = l
  queue_all (t ∷ ts) l = queue_all ts (queue_in_loop t l)

  module _ (spawn : A → List A) where
    -- One task on the loop's thread
    pub run_functor : A → EventLoop A → EventLoop A
    run_functor t l = queue_all (spawn t) (record l { ran = l.ran ++ t ∷ [] })

    -- `RunInLoop`, called on the loop's thread or on another
    pub run_in_loop : Bool → A → EventLoop A → EventLoop A
    run_in_loop in_loop t l =
        if is_running l.status && in_loop then run_functor t l else queue_in_loop t l

    -- `functors[i](); --pending_functor_count_;`
    pub run_counted : A → EventLoop A → EventLoop A
    run_counted t l =
        let l' = run_functor t l in
        record l' { pending_functor_count = l'.pending_functor_count - 1 }

    pub run_functors : List A → EventLoop A → EventLoop A
    run_functors [] l = l
    run_functors (t ∷ ts) l = run_functors ts (run_counted t l)

    pub do_pending_functors : EventLoop A → EventLoop A
    do_pending_functors l =
        run_functors l.pending_functors (record l { notified = false; pending_functors = [] })

    -- `PipeEventWatcher::HandlerFn`: read at most 4096 bytes, then call the handler once
    pub handler_fn : EventLoop A → EventLoop A
    handler_fn l = elim l.pipe [
      | zero ↦ l
      | suc n ↦ do_pending_functors (record l { pipe = suc n - 4096 })
    ]

    -- The loop of `StopInLoop`, on fuel: until the queue is empty
    pub drain : ℕ → EventLoop A → Option (EventLoop A)
    drain zero l = none
    drain (suc fuel) l =
        let l' = do_pending_functors l in
        let rest = drain fuel l' in if is_empty l'.pending_functors then some l' else rest
