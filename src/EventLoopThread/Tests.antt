-- ===== src/EventLoopThread/Tests.antt =====
-- The theorems about evpp/event_loop_thread.cc at a thread of their own.
use evpp.Base.{
  ℕ, zero, suc, All, ◌≡◌, ◌≢◌, refl, true, false, List, [], ◌∷◌, ◌++◌, some, replicate, inl, inr,
  arith,
}
use evpp.EventLoop.{running}
use evpp.EventLoopThread.{
  EventLoopThread, new, start, done, stores, ended, calls_pre, Turn, runs, stops, run_at, take_turn,
  take_turns,
}
use evpp.EventLoopThread.Stages.{looping, joined}
use evpp.EventLoopThread.Stopping.{IsRound, in_rounds, take_turns-joined, take_turns-ended}

abbrev round : List Turn
round = runs false ∷ stops ∷ runs true ∷ []

abbrev rounds : List (List Turn)
rounds = replicate 9 round

round-IsRound : IsRound round
round-IsRound = (inr (inl refl), inr (inr (inl refl)))

rounds-IsRound : (n : ℕ) → All IsRound (replicate n round)
rounds-IsRound zero = _
rounds-IsRound (suc n) = (round-IsRound, rounds-IsRound n)

take_turns-joined_example :
    take_turns (some true) true (in_rounds rounds) (looping running running (calls_pre ∷ []))
    ≡ joined true (calls_pre ∷ [])
take_turns-joined_example =
    take_turns-joined (some true) true running running (calls_pre ∷ []) rounds (rounds-IsRound 9)
      (omega arith)

-- A thread whose pre functor fails, up to its end
abbrev failed : EventLoopThread
failed = take_turns (some false) true (replicate 14 (runs true)) (start new)

failed-ended : failed.at ≡ ended
unfolding take_turns take_turn run_at start
failed-ended = refl

failed-stores : failed.owner ≡ stores
unfolding take_turns take_turn run_at start new
failed-stores = refl

take_turns-ended_example :
    (take_turns (some false) true (stops ∷ round ++ round) failed).owner ≢ done
take_turns-ended_example =
    take_turns-ended (some false) true (round ++ round) failed failed-ended failed-stores
