-- ===== src/EventLoopThread/Stopping.antt =====
-- evpp/event_loop_thread.cc: `Stop(true)` against the thread of the loop, whatever the order of turns.
use mathlib.Core.Bool.{true≢false}
use evpp.Base.{
  ℕ, ◌+◌, ◌≤◌, ◌≡◌, ◌≢◌, ◌⊎◌, inl, inr, refl, sym, ap, subst, ◌∙◌, Bool, true, false, List, [], ◌∷◌,
  ◌++◌, Option, length, All, arith, Bool-cases,
}
use evpp.EventLoop.{Status, stopping}
use evpp.EventLoopThread.{
  EventLoopThread, Position, ended, Owner, stores, stores_loop, queues, waits, done, Effect, Turn,
  runs, stops, run_at, stop_at, take_turn, take_turns,
}
use evpp.EventLoopThread.Stages.{
  Stage, unstopped, told, told_loop, queued, leaving, posting, ending, stored, joining, finished,
  looping, joined, stage, advance, advance_all, number, next, is_its_turn, mover, last_or_next,
  advance_all_le, turns-stage,
}

abbrev pub Has : Turn → List Turn → Type 0
Has v [] = ◌≡◌ {A = Bool} true false
Has v (u ∷ us) = (u ≡ v) ⊎ Has v us

-- Both threads have a turn, and dispatching returns if it can.
abbrev pub IsRound : List Turn → Type 0
IsRound us = Has stops us × Has (runs true) us

advance_all-progress :
    (us : List Turn) (s : Stage)
    → number (next s) ≡ number s + 1
    → is_its_turn (mover s) s ≡ true
    → Has (mover s) us
    → number s + 1 ≤ number (advance_all us s)
unfolding advance_all advance
advance_all-progress [] s n t h = absurd (true≢false h)
advance_all-progress (u ∷ us) s n t h = elim (Bool-cases (is_its_turn u s)) [
  | inl e ↦ rw e (omega (arith, n, advance_all_le us (next s)))
  | inr e ↦ rw e (elim h [
    | inl same ↦ absurd (true≢false (sym t ∙ ap (λ v. is_its_turn v s) (sym same) ∙ e))
    | inr later ↦ advance_all-progress us s n t later
  ])
]

Has-mover : (us : List Turn) (s : Stage) → IsRound us → Has (mover s) us
unfolding mover
Has-mover us queued (a, b) = b
Has-mover us leaving (a, b) = b
Has-mover us posting (a, b) = b
Has-mover us ending (a, b) = b
Has-mover us unstopped (a, b) = a
Has-mover us told (a, b) = a
Has-mover us told_loop (a, b) = a
Has-mover us stored (a, b) = a
Has-mover us joining (a, b) = a
Has-mover us finished (a, b) = a

abbrev pub in_rounds : List (List Turn) → List Turn
in_rounds [] = []
in_rounds (us ∷ rounds) = us ++ in_rounds rounds

advance_all-append :
    (us vs : List Turn) (s : Stage) → advance_all (us ++ vs) s ≡ advance_all vs (advance_all us s)
unfolding advance_all
advance_all-append [] vs s = refl
advance_all-append (u ∷ us) vs s = advance_all-append us vs (advance u s)

advance_all-finished :
    (rounds : List (List Turn)) (s : Stage)
    → All IsRound rounds
    → 9 ≤ number s + length rounds
    → advance_all (in_rounds rounds) s ≡ finished
unfolding advance_all number
advance_all-finished [] s a h = elim (last_or_next s) [
  | inl e ↦ e
  | inr (l, n, t) ↦ absurd (omega arith)
]
advance_all-finished (us ∷ rounds) s (a, as_) h =
    advance_all-append us (in_rounds rounds) s
    ∙ advance_all-finished rounds (advance_all us s) as_ (elim (last_or_next s) [
      | inl e ↦ omega (arith, ap number e, advance_all_le us s)
      | inr (l, n, t) ↦ omega (arith, advance_all-progress us s n t (Has-mover us s a))
    ])

-- A Stop that waits for the thread, called while that dispatches, returns: after nine rounds, in each
-- of which either thread has a turn or more in any order, the loop and the thread are stopped, the
-- post functor has been called once, if there is one, and the thread is joined.
pub take_turns-joined :
    (pre : Option Bool) (post : Bool) (st ls : Status) (called : List Effect)
    (rounds : List (List Turn))
    → All IsRound rounds
    → 9 ≤ length rounds
    → take_turns pre post (in_rounds rounds) (looping st ls called) ≡ joined post called
unfolding number
take_turns-joined pre post st ls called rounds a h =
    turns-stage pre post st ls called (in_rounds rounds) unstopped
    ∙ ap (stage post st ls called)
        (advance_all-finished rounds unstopped a (enough (length rounds) h))
  where
    enough : (n : ℕ) → 9 ≤ n → 9 ≤ number unstopped + n
    enough n h = omega arith

-- A thread that has ended, of which another is in `Stop`
abbrev lost : Owner → EventLoopThread → EventLoopThread
lost o t = record t { status = stopping; at = ended; owner = o }

lost-waits :
    (pre : Option Bool) (post : Bool) (us : List Turn) (t : EventLoopThread)
    → (take_turns pre post us (lost waits t)).owner ≢ done
unfolding take_turns take_turn run_at stop_at
lost-waits pre post [] t h = cc
lost-waits pre post (runs r ∷ us) t h = lost-waits pre post us t h
lost-waits pre post (stops ∷ us) t h = lost-waits pre post us t h

lost-queues :
    (pre : Option Bool) (post : Bool) (us : List Turn) (t : EventLoopThread)
    → (take_turns pre post us (lost queues t)).owner ≢ done
unfolding take_turns take_turn run_at stop_at
lost-queues pre post [] t h = cc
lost-queues pre post (runs r ∷ us) t h = lost-queues pre post us t h
lost-queues pre post (stops ∷ us) t h = lost-waits pre post us (record t { stop_queued = true }) h

lost-stores_loop :
    (pre : Option Bool) (post : Bool) (us : List Turn) (t : EventLoopThread)
    → (take_turns pre post us (lost stores_loop t)).owner ≢ done
unfolding take_turns take_turn run_at stop_at
lost-stores_loop pre post [] t h = cc
lost-stores_loop pre post (runs r ∷ us) t h = lost-stores_loop pre post us t h
lost-stores_loop pre post (stops ∷ us) t h =
    lost-queues pre post us (record t { loop_status = stopping }) h

-- A Stop that waits for the thread, called once that has ended by itself, as it does when its pre
-- functor fails, never returns: it stores kStopping over the kStopped that it waits for.
pub take_turns-ended :
    (pre : Option Bool) (post : Bool) (us : List Turn) (t : EventLoopThread)
    → t.at ≡ ended
    → t.owner ≡ stores
    → (take_turns pre post (stops ∷ us) t).owner ≢ done
unfolding take_turns take_turn stop_at
take_turns-ended pre post us t at_end calm =
    subst (λ (o : Owner). (take_turns pre post us (stop_at o t)).owner ≢ done) (sym calm)
      (subst
        (λ (p : Position).
          (take_turns pre post us
            (record t { status = stopping; at = p; owner = stores_loop })).owner
          ≢ done)
        (sym at_end) (lost-stores_loop pre post us t))
