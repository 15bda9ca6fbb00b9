-- ===== src/InvokeTimer/Firing.antt =====
-- evpp/invoke_timer.cc: how often the functor is called.
use evpp.Base.{
  ℕ, zero, suc, ◌+◌, ◌≤◌, ◌≡◌, Bool, true, false, List, [], ◌∷◌, ◌++◌, Option, none, some,
  if◌then◌else◌, ◌>>=◌, arith, length,
}
use evpp.InvokeTimer.{InvokeTimer, Effect, call_functor, call_cancel, cancel, fire}

-- What happens to a timer on its loop: it fires, with what its functor and libevent do, or it is
-- cancelled.
pub data Event : Type 0 where
  fires : Bool → Bool → Event
  cancelled : Event

abbrev pub step : ℕ → Event → InvokeTimer → Option (InvokeTimer × List Effect)
step again (fires cancels ok) t = fire again cancels ok t
step again cancelled t = some (cancel again t)

abbrev pub run : ℕ → List Event → InvokeTimer → Option (InvokeTimer × List Effect)
run again [] t = some (t, [])
run again (e ∷ es) t =
    step again e t >>= λ (t', fx). run again es t' >>= λ (t'', fx'). some (t'', fx ++ fx')

-- How often the functor is called.
abbrev pub calls : List Effect → ℕ
calls [] = 0
calls (call_functor ∷ fx) = suc (calls fx)
calls (call_cancel ∷ fx) = calls fx

calls-append : (xs ys : List Effect) → calls (xs ++ ys) ≡ calls xs + calls ys
calls-append [] ys = omega arith
calls-append (call_functor ∷ xs) ys = omega (arith, calls-append xs ys)
calls-append (call_cancel ∷ xs) ys = calls-append xs ys

-- The end of a timer.
ended : Bool → InvokeTimer
ended cb = record { periodic = false; timer = none; self = false; cancel_callback = cb }

alive : Bool → Bool → Bool → Bool → InvokeTimer
alive periodic cb a p = record {
  periodic = periodic;
  timer = some (record { attached = a; pending = p });
  self = true;
  cancel_callback = cb;
}

-- The most calls in `n` events.
abbrev pub limit : Bool → ℕ → ℕ
limit periodic n = if periodic then n else 1

Limited : ℕ → Bool → Bool → List Event → Option (InvokeTimer × List Effect) → Type 0
Limited again periodic cb es r =
    (t : InvokeTimer) × (fx : List Effect) × (r ≡ some (t, fx))
    × (calls fx ≤ limit periodic (length es))
    × ((cancel again t).0 ≡ ended cb)

-- The effects of a cancellation.
abbrev farewell : ℕ → Bool → List Effect
farewell zero cb = if cb then call_cancel ∷ [] else []
farewell (suc again) cb = let rest = farewell again cb in if cb then call_cancel ∷ rest else []
