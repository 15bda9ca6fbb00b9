-- ===== src/Connector.antt =====
-- evpp/connector.h and connector.cc: the state of an attempt to connect, and the parts of its methods
-- between the callbacks. What the kernel answers is an argument. A call through a timer or a channel
-- that is gone is `none`.
use evpp.Base.{ℕ, Bool, true, false, Option, none, some, if◌then◌else◌}
use evpp.Errno.{Errno, is_connect_retriable}
use evpp.FdChannel.{FdChannel, Backend}
use evpp.FdChannel

pub data Status : Type 0 where
  disconnected dns_resolving dns_resolved connecting connected : Status

pub record Connector : Type 0 where
  pub status : Status
  -- The address to connect to; `none` is the zero address, of a host that is still to be resolved.
  pub raddr : Option ℕ
  pub fd : Option ℕ
  pub own_fd : Bool
  pub chan : Option FdChannel
  pub timer : Bool
  pub dns_resolver : Bool

-- What the system calls of `Connect` return: the new socket, and the errors of `bind` (which is
-- called only for a local address) and of `connect`.
pub record Dial : Type 0 where
  pub fd : Option ℕ
  pub bound : Option Errno
  pub dialled : Option Errno

pub new : Option ℕ → Connector
new addr = record {
  status = disconnected;
  raddr = addr;
  fd = none;
  own_fd = false;
  chan = none;
  timer = false;
  dns_resolver = false;
}

abbrev pub is_connected : Status → Bool
is_connected connected = true
is_connected _ = false

abbrev pub is_disconnected : Status → Bool
is_disconnected disconnected = true
is_disconnected _ = false

abbrev pub is_resolving : Status → Bool
is_resolving dns_resolving = true
is_resolving _ = false

module _ (sys : Backend) where
  -- `chan_->DisableAllEvent(); chan_->Close();`
  abbrev pub silence : FdChannel → FdChannel
  silence c = FdChannel.close sys (FdChannel.disable_all_event sys c)

  abbrev pub silence_if : Option FdChannel → Option FdChannel
  silence_if none = none
  silence_if (some c) = some (silence c)

  -- The end of `Connect`: wait until the socket is writable.
  unfoldable pub wait_writable : Connector → Connector
  wait_writable c = record c {
    status = connecting;
    chan =
        some (FdChannel.attach_to_loop sys (record (FdChannel.new false true) { write_fn = true }));
  }

  -- `Connect`, and the errno for the `HandleError` that it ends with
  abbrev pub dial_result : Option Errno → Connector → Connector × Option Errno
  dial_result none c = (wait_writable c, none)
  dial_result (some e) c = if is_connect_retriable e then (wait_writable c, none) else (c, some e)

  abbrev pub bind_result : Option Errno → Option Errno → Connector → Connector × Option Errno
  bind_result (some e) dialled c = (c, some e)
  bind_result none dialled c = dial_result dialled c

  unfoldable pub connect : Dial → Connector → Connector × Option Errno
  connect d c = bind_result d.bound d.dialled (record c { fd = d.fd; own_fd = true })

  abbrev pub given_up : Connector → Connector
  given_up c = record c {
    status = disconnected;
    chan = silence_if c.chan;
    dns_resolver = false;
    timer = false;
  }

  -- `HandleError` up to the callback
  unfoldable pub give_up : Connector → Option Connector
  give_up c = if c.timer then some (given_up c) else none

  abbrev pub handed : Option FdChannel → Connector → Option Connector
  handed none c = none
  handed (some ch) c = some (record c {
    status = connected;
    fd = none;
    own_fd = false;
    chan = some (silence ch);
    timer = false;
  })

  -- `HandleWrite` after the callback
  unfoldable pub hand_over : Connector → Option Connector
  hand_over c = if c.timer then handed c.chan c else none

  -- `Cancel`; the second part says whether it reports a failure through `conn_fn_`.
  unfoldable pub cancel : Connector → Connector × Bool
  cancel c = (
    record c { dns_resolver = false; timer = false; chan = silence_if c.chan },
    is_resolving c.status,
  )
