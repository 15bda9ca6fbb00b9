-- ===== src/EventLoopThread.antt =====
-- evpp/event_loop_thread.cc, with Run and Stop of event_loop.cc as far as they store a status: the thread
-- of a loop and the thread that starts and stops it. A turn is one access of what they share; what
-- event_base_dispatch does with other tasks is left out.
pub mod Stages
pub mod Stopping
mod Tests
use evpp.Base.{Bool, true, false, List, [], ◌∷◌, ◌++◌, Option, none, some, if◌then◌else◌}
use evpp.EventLoop.{Status, null, initializing, initialized, starting, running, stopping, stopped}

-- What the loop's thread does next: queue the first task, store kStarting and kRunning for the loop,
-- run the first task up to the pre functor, call that, stop the loop if it fails, dispatch, store
-- kStopped for the loop, call the post functor, store kStopped.
pub data Position : Type 0 where
  absent queueing loop_starting loop_running first_task calling_pre failing failing_queue : Position
  dispatching loop_stopping calling_post storing ended : Position

-- What the other thread does next in `Stop(true)`: store kStopping for the thread and for the loop,
-- queue StopInLoop, wait, join.
pub data Owner : Type 0 where
  stores stores_loop queues waits joins done : Owner

pub data Effect : Type 0 where
  calls_pre calls_post : Effect

pub record EventLoopThread : Type 0 where
  pub status : Status
  pub loop_status : Status
  -- `thread_` is set.
  pub has_thread : Bool
  -- The loop's queue has StopInLoop.
  pub stop_queued : Bool
  pub at : Position
  pub owner : Owner
  pub called : List Effect

pub new : EventLoopThread
new = record {
  status = null;
  loop_status = initialized;
  has_thread = false;
  stop_queued = false;
  at = absent;
  owner = stores;
  called = [];
}

-- `Start` up to its wait
pub start : EventLoopThread → EventLoopThread
start t = record t { status = starting; has_thread = true; at = queueing }

-- What `Start` waits for
pub has_started : Status → Bool
has_started null = false
has_started initializing = false
has_started initialized = false
has_started starting = false
has_started _ = true

-- `pre`, which may be there, and whether it returns kOK
abbrev pub after_pre : Option Bool → EventLoopThread → EventLoopThread
after_pre none t = record t { at = dispatching }
after_pre (some ok) t = record t {
  at = if ok then dispatching else failing;
  called = t.called ++ calls_pre ∷ [];
}

-- `post`, which may be there
abbrev pub after_post : Bool → EventLoopThread → EventLoopThread
after_post post t = record t {
  at = storing;
  called = if post then t.called ++ calls_post ∷ [] else t.called;
}

-- `Run`, one turn. Dispatching ends once StopInLoop has run, in a turn that says so.
pub run_at : Option Bool → Bool → Bool → Position → EventLoopThread → EventLoopThread
run_at pre post returns absent t = t
run_at pre post returns queueing t = record t { at = loop_starting }
run_at pre post returns loop_starting t = record t { loop_status = starting; at = loop_running }
run_at pre post returns loop_running t = record t { loop_status = running; at = first_task }
run_at pre post returns first_task t = record t { status = running; at = calling_pre }
run_at pre post returns calling_pre t = after_pre pre t
run_at pre post returns failing t = record t { loop_status = stopping; at = failing_queue }
run_at pre post returns failing_queue t = record t { stop_queued = true; at = dispatching }
run_at pre post false dispatching t = t
run_at pre post true dispatching t = record t {
  at = if t.stop_queued then loop_stopping else dispatching;
}
run_at pre post returns loop_stopping t = record t { loop_status = stopped; at = calling_post }
run_at pre post returns calling_post t = after_post post t
run_at pre post returns storing t = record t { status = stopped; at = ended }
run_at pre post returns ended t = t

-- `IsStopped`
abbrev pub is_stopped : Status → Bool
is_stopped stopped = true
is_stopped _ = false

abbrev pub is_ended : Position → Bool
is_ended ended = true
is_ended _ = false

-- `Stop` and the `Join` behind its wait, one turn
pub stop_at : Owner → EventLoopThread → EventLoopThread
stop_at stores t = record t { status = stopping; owner = stores_loop }
stop_at stores_loop t = record t { loop_status = stopping; owner = queues }
stop_at queues t = record t { stop_queued = true; owner = waits }
stop_at waits t = record t { owner = if is_stopped t.status then joins else waits }
stop_at joins t = if is_ended t.at then record t { has_thread = false; owner = done } else t
stop_at done t = t

-- A turn of the loop's thread, and one of the other
pub data Turn : Type 0 where
  runs : Bool → Turn
  stops : Turn

module _ (pre : Option Bool) (post : Bool) where
  pub take_turn : Turn → EventLoopThread → EventLoopThread
  take_turn (runs returns) t = run_at pre post returns t.at t
  take_turn stops t = stop_at t.owner t

  pub take_turns : List Turn → EventLoopThread → EventLoopThread
  take_turns [] t = t
  take_turns (u ∷ us) t = take_turns us (take_turn u t)
