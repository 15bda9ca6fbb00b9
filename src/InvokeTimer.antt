-- ===== src/InvokeTimer.antt =====
-- evpp/invoke_timer.cc with the timer's part of evpp/event_watcher.cc: a timer on its loop's thread,
-- where `RunInLoop` runs its task at once. Callbacks are returned as a list of effects, in order.
-- `none` is a use of a timer that has been reset. The cancel callback may cancel its timer again, as
-- often as `again` says; it is taken not to start it.
pub mod Firing
mod Tests
use evpp.Base.{
  ℕ, zero, suc, Bool, true, false, List, [], ◌∷◌, ◌++◌, Option, none, some, if◌then◌else◌, ◌>>=◌,
}

-- An `EventWatcher`: `attached_`, and whether libevent waits for the event.
pub record Watcher : Type 0 where
  pub attached : Bool
  pub pending : Bool

pub record InvokeTimer : Type 0 where
  pub periodic : Bool
  pub timer : Option Watcher
  -- `self_` holds the timer itself.
  pub self : Bool
  pub cancel_callback : Bool

pub data Effect : Type 0 where
  call_functor call_cancel : Effect

-- `EventWatcher::Watch`: the event is taken out first; `ok` is whether libevent takes it again.
pub watch : Bool → Watcher → Watcher
watch ok w =
    if ok
    then record { attached = true; pending = true }
    else record { attached = false; pending = false }

pub create : Bool → Bool → InvokeTimer
create periodic cb = record { periodic = periodic; timer = none; self = true; cancel_callback = cb }

pub start : Bool → InvokeTimer → InvokeTimer
start ok t = record t { timer = some (watch ok (record { attached = false; pending = false })) }

abbrev released : InvokeTimer → InvokeTimer
released t = record t { timer = none; self = false }

-- `OnCanceled`: the callback is called while the timer is there, so when it cancels the timer again,
-- the handler of the watcher comes back here; the timer is reset behind the callback.
pub on_canceled : ℕ → InvokeTimer → InvokeTimer × List Effect
on_canceled zero t =
    (released (record t { periodic = false }), if t.cancel_callback then call_cancel ∷ [] else [])
on_canceled (suc again) t =
    let t' : InvokeTimer = record t { periodic = false } in
    let (t'', es) = on_canceled again t' in
    if t.cancel_callback then (released t'', call_cancel ∷ es) else (released t', [])

-- `Cancel`: `EventWatcher::Cancel` frees the event and calls `OnCanceled`.
pub cancel : ℕ → InvokeTimer → InvokeTimer × List Effect
cancel again t = elim t.timer [ none ↦ (t, []) | some w ↦ on_canceled again t ]

-- `OnTimerTriggered` after the functor
rearm : Bool → InvokeTimer → Option InvokeTimer
rearm ok t =
    if t.periodic
    then (t.timer >>= λ w. some (record t { timer = some (watch ok w) }))
    else some (record t { timer = none; self = false })

-- `OnTimerTriggered`; the functor may cancel its own timer.
pub on_timer_triggered : ℕ → Bool → Bool → InvokeTimer → Option (InvokeTimer × List Effect)
on_timer_triggered again cancels ok t =
    let (t', es) = if cancels then cancel again t else (t, []) in
    rearm ok t' >>= λ t''. some (t'', call_functor ∷ es)

-- libevent calls the handler of a timer that it waits for, and waits no longer.
fired : ℕ → Bool → Bool → InvokeTimer → Option Watcher → Option (InvokeTimer × List Effect)
fired again cancels ok t none = some (t, [])
fired again cancels ok t (some w) =
    if w.pending
    then on_timer_triggered again cancels ok
        (record t { timer = some (record w { pending = false }) })
    else some (t, [])

pub fire : ℕ → Bool → Bool → InvokeTimer → Option (InvokeTimer × List Effect)
fire again cancels ok t = fired again cancels ok t t.timer
