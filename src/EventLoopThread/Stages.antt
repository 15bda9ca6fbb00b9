-- ===== src/EventLoopThread/Stages.antt =====
-- evpp/event_loop_thread.cc: how far a `Stop(true)` of a thread that dispatches has come.
use evpp.Base.{
  ℕ, ◌+◌, ◌≤◌, ◌<◌, ◌≡◌, ◌⊎◌, inl, inr, refl, ap, ◌∙◌, Bool, true, false, List, [], ◌∷◌, ◌++◌,
  Option, if◌then◌else◌, arith, Bool-cases,
}
use evpp.EventLoop.{Status, stopping, stopped}
use evpp.EventLoopThread.{
  EventLoopThread, dispatching, loop_stopping, calling_post, storing, ended, stores, stores_loop,
  queues, waits, joins, done, Effect, calls_post, Turn, runs, stops, run_at, stop_at, take_turn,
  take_turns,
}

-- How far a `Stop` has come. Each stage is left by a turn of one of the threads.
pub data Stage : Type 0 where
  unstopped told told_loop queued leaving posting ending stored joining finished : Stage

unfoldable pub number : Stage → ℕ
number unstopped = 0
number told = 1
number told_loop = 2
number queued = 3
number leaving = 4
number posting = 5
number ending = 6
number stored = 7
number joining = 8
number finished = 9

abbrev pub posted : Bool → List Effect → List Effect
posted post called = if post then called ++ calls_post ∷ [] else called

-- A thread that dispatches, and that nobody stops
abbrev pub looping : Status → Status → List Effect → EventLoopThread
looping st ls called = record {
  status = st;
  loop_status = ls;
  has_thread = true;
  stop_queued = false;
  at = dispatching;
  owner = stores;
  called = called;
}

-- A thread that has ended and was joined
abbrev pub joined : Bool → List Effect → EventLoopThread
joined post called = record {
  status = stopped;
  loop_status = stopped;
  has_thread = false;
  stop_queued = true;
  at = ended;
  owner = done;
  called = posted post called;
}

abbrev pub stage : Bool → Status → Status → List Effect → Stage → EventLoopThread
stage post st ls called unstopped = looping st ls called
stage post st ls called told = record (looping stopping ls called) { owner = stores_loop }
stage post st ls called told_loop = record (looping stopping stopping called) { owner = queues }
stage post st ls called queued = record (looping stopping stopping called) {
  owner = waits;
  stop_queued = true;
}
stage post st ls called leaving = record (looping stopping stopping called) {
  owner = waits;
  stop_queued = true;
  at = loop_stopping;
}
stage post st ls called posting = record (looping stopping stopped called) {
  owner = waits;
  stop_queued = true;
  at = calling_post;
}
stage post st ls called ending = record (looping stopping stopped (posted post called)) {
  owner = waits;
  stop_queued = true;
  at = storing;
}
stage post st ls called stored = record (joined post called) { has_thread = true; owner = waits }
stage post st ls called joining = record (joined post called) { has_thread = true; owner = joins }
stage post st ls called finished = joined post called

unfoldable pub next : Stage → Stage
next unstopped = told
next told = told_loop
next told_loop = queued
next queued = leaving
next leaving = posting
next posting = ending
next ending = stored
next stored = joining
next joining = finished
next finished = finished

-- Whether it is the turn of `Run`, and of `Stop`
unfoldable pub is_its_turn : Turn → Stage → Bool
is_its_turn (runs r) queued = r
is_its_turn (runs r) leaving = true
is_its_turn (runs r) posting = true
is_its_turn (runs r) ending = true
is_its_turn (runs r) _ = false
is_its_turn stops unstopped = true
is_its_turn stops told = true
is_its_turn stops told_loop = true
is_its_turn stops stored = true
is_its_turn stops joining = true
is_its_turn stops _ = false

unfoldable pub advance : Turn → Stage → Stage
advance u s = if is_its_turn u s then next s else s

unfoldable pub advance_all : List Turn → Stage → Stage
advance_all [] s = s
advance_all (u ∷ us) s = advance_all us (advance u s)

turn-stage :
    (pre : Option Bool) (post : Bool) (st ls : Status) (called : List Effect) (u : Turn) (s : Stage)
    → take_turn pre post u (stage post st ls called s) ≡ stage post st ls called (advance u s)
unfolding take_turn run_at stop_at advance next is_its_turn
turn-stage pre post st ls called stops unstopped = refl
turn-stage pre post st ls called stops told = refl
turn-stage pre post st ls called stops told_loop = refl
turn-stage pre post st ls called stops queued = refl
turn-stage pre post st ls called stops leaving = refl
turn-stage pre post st ls called stops posting = refl
turn-stage pre post st ls called stops ending = refl
turn-stage pre post st ls called stops stored = refl
turn-stage pre post st ls called stops joining = refl
turn-stage pre post st ls called stops finished = refl
turn-stage pre post st ls called (runs true) unstopped = refl
turn-stage pre post st ls called (runs false) unstopped = refl
turn-stage pre post st ls called (runs true) told = refl
turn-stage pre post st ls called (runs false) told = refl
turn-stage pre post st ls called (runs true) told_loop = refl
turn-stage pre post st ls called (runs false) told_loop = refl
turn-stage pre post st ls called (runs true) queued = refl
turn-stage pre post st ls called (runs false) queued = refl
turn-stage pre post st ls called (runs r) leaving = refl
turn-stage pre post st ls called (runs r) posting = refl
turn-stage pre post st ls called (runs r) ending = refl
turn-stage pre post st ls called (runs r) stored = refl
turn-stage pre post st ls called (runs r) joining = refl
turn-stage pre post st ls called (runs r) finished = refl

pub turns-stage :
    (pre : Option Bool) (post : Bool) (st ls : Status) (called : List Effect) (us : List Turn)
    (s : Stage)
    → take_turns pre post us (stage post st ls called s)
      ≡ stage post st ls called (advance_all us s)
unfolding take_turns advance_all
turns-stage pre post st ls called [] s = refl
turns-stage pre post st ls called (u ∷ us) s =
    ap (take_turns pre post us) (turn-stage pre post st ls called u s)
    ∙ turns-stage pre post st ls called us (advance u s)

-- A turn that leaves the stage, if it is not the last
unfoldable pub mover : Stage → Turn
mover queued = runs true
mover leaving = runs true
mover posting = runs true
mover ending = runs true
mover _ = stops

pub last_or_next :
    (s : Stage)
    → (s ≡ finished)
      ⊎ (number s < 9) × (number (next s) ≡ number s + 1) × (is_its_turn (mover s) s ≡ true)
unfolding number next mover is_its_turn
last_or_next unstopped = inr (omega arith, refl, refl)
last_or_next told = inr (omega arith, refl, refl)
last_or_next told_loop = inr (omega arith, refl, refl)
last_or_next queued = inr (omega arith, refl, refl)
last_or_next leaving = inr (omega arith, refl, refl)
last_or_next posting = inr (omega arith, refl, refl)
last_or_next ending = inr (omega arith, refl, refl)
last_or_next stored = inr (omega arith, refl, refl)
last_or_next joining = inr (omega arith, refl, refl)
last_or_next finished = inl refl

next_le : (s : Stage) → number s ≤ number (next s)
unfolding number next
next_le s = elim (last_or_next s) [ inl e ↦ rw e (omega arith) | inr (l, n, t) ↦ omega (arith, n) ]

advance_le : (u : Turn) (s : Stage) → number s ≤ number (advance u s)
unfolding advance
advance_le u s = elim (Bool-cases (is_its_turn u s)) [
  | inl e ↦ rw e (next_le s)
  | inr e ↦ rw e (omega arith)
]

pub advance_all_le : (us : List Turn) (s : Stage) → number s ≤ number (advance_all us s)
unfolding advance_all
advance_all_le [] s = omega arith
advance_all_le (u ∷ us) s = omega (arith, advance_le u s, advance_all_le us (advance u s))
