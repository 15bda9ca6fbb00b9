-- ===== src/FdChannel.antt =====
-- evpp/fd_channel.h and fd_channel.cc: what a file descriptor is watched for. libevent is outside:
-- `Backend` says what its calls return during an operation.
pub mod Watch
mod Tests
use evpp.Base.{
  Bool, true, false, not, Option, none, some, ◌&&◌, ◌||◌, if◌then◌else◌, ℕ, List, [], ◌∷◌,
}

-- Two of the bits of `events_`: kReadable (0x02) and kWritable (0x04).
pub record Events : Type 0 where
  pub read : Bool
  pub write : Bool

abbrev pub no_events : Events
no_events = record { read = false; write = false }

pub record FdChannel : Type 0 where
  pub attached : Bool
  pub events : Events
  -- `event_` is allocated.
  pub event : Bool
  -- What libevent watches the descriptor for: the argument of `event_set`, while it is added.
  pub registered : Option Events
  -- The callbacks are set.
  pub read_fn : Bool
  pub write_fn : Bool

-- `event_add` and `event_del` return 0.
pub record Backend : Type 0 where
  pub add_ok : Bool
  pub del_ok : Bool

pub new : Bool → Bool → FdChannel
new r w = record {
  attached = false;
  events = record { read = r; write = w };
  event = true;
  registered = none;
  read_fn = false;
  write_fn = false;
}

pub is_readable : FdChannel → Bool
is_readable c = c.events.read

unfoldable pub is_writable : FdChannel → Bool
is_writable c = c.events.write

pub is_none_event : FdChannel → Bool
is_none_event c = not (c.events.read || c.events.write)

module _ (sys : Backend) where
  pub detach_from_loop : FdChannel → FdChannel
  detach_from_loop c = if sys.del_ok then record c { attached = false; registered = none } else c

  pub attach_to_loop : FdChannel → FdChannel
  unfolding detach_from_loop
  attach_to_loop c =
      let c' : FdChannel = if c.attached then detach_from_loop c else c in
      if sys.add_ok then record c' { attached = true; registered = some c'.events } else c'

  pub update : FdChannel → FdChannel
  unfolding detach_from_loop attach_to_loop is_none_event
  update c = if is_none_event c then detach_from_loop c else attach_to_loop c

  pub enable_read_event : FdChannel → FdChannel
  unfolding update
  enable_read_event c =
      if c.events.read
      then c
      else update (record c { events = record { read = true; write = c.events.write } })

  pub enable_write_event : FdChannel → FdChannel
  unfolding update
  enable_write_event c =
      if c.events.write
      then c
      else update (record c { events = record { read = c.events.read; write = true } })

  pub disable_read_event : FdChannel → FdChannel
  unfolding update
  disable_read_event c =
      if c.events.read
      then update (record c { events = record { read = false; write = c.events.write } })
      else c

  pub disable_write_event : FdChannel → FdChannel
  unfolding update
  disable_write_event c =
      if c.events.write
      then update (record c { events = record { read = c.events.read; write = false } })
      else c

  pub disable_all_event : FdChannel → FdChannel
  unfolding update is_none_event
  disable_all_event c = if is_none_event c then c else update (record c { events = no_events })

  -- `event_del` is called if the channel is still attached; the flag stays as it is.
  pub close : FdChannel → FdChannel
  close c = record c {
    event = false;
    registered = if c.event && c.attached && sys.del_ok then none else c.registered;
    read_fn = false;
    write_fn = false;
  }

-- `HandleEvent`: whether the read and the write callback are called, and the channel in between.
-- The read callback, `on_read`, may change the channel.
pub handle_event : Events → (FdChannel → FdChannel) → FdChannel → Bool × Bool × FdChannel
handle_event which on_read c =
    let reads : Bool = which.read && c.read_fn in
    let c' : FdChannel = if reads then on_read c else c in (reads, which.write && c'.write_fn, c')
