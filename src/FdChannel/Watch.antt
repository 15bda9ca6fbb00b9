-- ===== src/FdChannel/Watch.antt =====
-- evpp/fd_channel.cc: what libevent watches is what the channel's flags say.
use evpp.Base.{
  true, false, not, none, some, List, [], ◌∷◌, ◌≡◌, refl, arith, if◌then◌else◌, ◌||◌, is_none, ap,
  ◌∙◌,
}
use evpp.FdChannel.{
  Events, no_events, FdChannel, Backend, is_readable, is_writable, update, enable_read_event,
  enable_write_event, disable_read_event, disable_write_event, disable_all_event, close,
  handle_event,
}

-- The descriptor is watched for the channel's events, and for nothing when there are none.
pub record IsSynced (c : FdChannel) : Type 0 where
  pub flag : c.attached ≡ (c.events.read || c.events.write)
  pub watched : c.registered ≡ (if c.events.read || c.events.write then some c.events else none)

-- `attached()` tells whether libevent watches the descriptor.
abbrev pub IsHonest : FdChannel → Type 0
IsHonest c = c.attached ≡ not (is_none c.registered)

pub data Op : Type 0 where
  enable_read enable_write disable_read disable_write disable_all : Op

pub apply : Backend → Op → FdChannel → FdChannel
apply sys enable_read = enable_read_event sys
apply sys enable_write = enable_write_event sys
apply sys disable_read = disable_read_event sys
apply sys disable_write = disable_write_event sys
apply sys disable_all = disable_all_event sys

pub run : Backend → List Op → FdChannel → FdChannel
run sys [] c = c
run sys (o ∷ os) c = run sys os (apply sys o c)

-- The same with libevent's answers at each call.
pub run_under : List (Backend × Op) → FdChannel → FdChannel
run_under [] c = c
run_under ((sys, o) ∷ os) c = run_under os (apply sys o c)

-- What the calls ask for, whatever libevent answers.
pub wanted : Op → Events → Events
wanted enable_read e = record e { read = true }
wanted enable_write e = record e { write = true }
wanted disable_read e = record e { read = false }
wanted disable_write e = record e { write = false }
wanted disable_all e = no_events

pub wanted_all : List Op → Events → Events
wanted_all [] e = e
wanted_all (o ∷ os) e = wanted_all os (wanted o e)

abbrev pub healthy : Backend
healthy = record { add_ok = true; del_ok = true }

events-update : (sys : Backend) (c : FdChannel) → (update sys c).events ≡ c.events
unfolding update
events-update sys c = ground arith

pub events-apply :
    (sys : Backend) (o : Op) (c : FdChannel) → (apply sys o c).events ≡ wanted o c.events
unfolding apply wanted enable_read_event enable_write_event disable_read_event disable_write_event
    disable_all_event
events-apply sys enable_read c = ground arith
events-apply sys enable_write c = ground arith
events-apply sys disable_read c = ground arith
events-apply sys disable_write c = ground arith
events-apply sys disable_all c = ground arith

pub is_writable-enable :
    (sys : Backend) (c : FdChannel) → is_writable (enable_write_event sys c) ≡ true
unfolding is_writable enable_write_event
is_writable-enable sys c = ground arith

pub is_writable-disable :
    (sys : Backend) (c : FdChannel) → is_writable (disable_write_event sys c) ≡ false
unfolding is_writable disable_write_event
is_writable-disable sys c = ground arith

update-IsSynced : (c : FdChannel) → IsSynced (update healthy c)
unfolding update
update-IsSynced c = ground arith

apply-IsSynced : (o : Op) {c : FdChannel} → IsSynced c → IsSynced (apply healthy o c)
unfolding apply enable_read_event enable_write_event disable_read_event disable_write_event
    disable_all_event
apply-IsSynced enable_read {c} s = ground arith
apply-IsSynced enable_write {c} s = ground arith
apply-IsSynced disable_read {c} s = ground arith
apply-IsSynced disable_write {c} s = ground arith
apply-IsSynced disable_all {c} s = ground arith

-- From a channel that is watched for its events, no sequence of Enable and Disable calls that
-- libevent accepts makes the two differ, and the events are those that the calls ask for.
pub run-IsSynced :
    (os : List Op) {c : FdChannel}
    → IsSynced c
    → IsSynced (run healthy os c) × ((run healthy os c).events ≡ wanted_all os c.events)
unfolding run wanted_all
run-IsSynced [] s = (s, refl)
run-IsSynced (o ∷ os) {c} s =
    let (s', e) = run-IsSynced os {c = apply healthy o c} (apply-IsSynced o s) in
    (s', e ∙ ap (wanted_all os) (events-apply healthy o c))

apply-IsHonest : (sys : Backend) (o : Op) (c : FdChannel) → IsHonest c → IsHonest (apply sys o c)
unfolding apply enable_read_event enable_write_event disable_read_event disable_write_event
    disable_all_event
apply-IsHonest sys enable_read c s = ground arith
apply-IsHonest sys enable_write c s = ground arith
apply-IsHonest sys disable_read c s = ground arith
apply-IsHonest sys disable_write c s = ground arith
apply-IsHonest sys disable_all c s = ground arith

-- Whatever libevent answers at each call, `attached()` says whether the descriptor is watched.
pub run-IsHonest :
    (os : List (Backend × Op)) (c : FdChannel) → IsHonest c → IsHonest (run_under os c)
unfolding run_under
run-IsHonest [] c s = s
run-IsHonest ((sys, o) ∷ os) c s = run-IsHonest os (apply sys o c) (apply-IsHonest sys o c s)

-- A channel that has been told to watch nothing and closed is known to libevent no more, and an
-- event that was already on its way calls no callback.
pub close_silent :
    (sys : Backend) (which : Events) (on_read : FdChannel → FdChannel) {c : FdChannel}
    → IsSynced c
    → let c' = close sys (disable_all_event healthy c) in
      (c'.registered ≡ none)
      × (c'.attached ≡ false)
      × (c'.event ≡ false)
      × (handle_event which on_read c' ≡ (false, false, c'))
unfolding close disable_all_event handle_event
close_silent sys which on_read {c} s = ground arith

-- If the read callback of an event closes the channel, the write callback is not called.
pub close_in_callback :
    (sys : Backend) (which : Events) (c : FdChannel)
    → which.read ≡ true
    → c.read_fn ≡ true
    → (handle_event which (close sys) c).1 ≡ false
unfolding close handle_event
close_in_callback sys which c r f = ground arith

pub close_deaf :
    (sys : Backend) (c : FdChannel)
    → ((close sys c).read_fn ≡ false) × ((close sys c).write_fn ≡ false)
unfolding close
close_deaf sys c = (refl, refl)

pub disable_read-apply :
    (c : FdChannel)
    → IsSynced c
    → IsSynced (disable_read_event healthy c)
      × (is_readable (disable_read_event healthy c) ≡ false)
      × (is_writable (disable_read_event healthy c) ≡ is_writable c)
unfolding disable_read_event is_readable is_writable
disable_read-apply c s = ground arith
