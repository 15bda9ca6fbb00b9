-- ===== src/TcpConn.antt =====
-- evpp/tcp_conn.h and tcp_conn.cc: one TCP connection on its event loop. The kernel's answers are
-- arguments; callbacks, bytes that reach the kernel and tasks for the loop are returned as a list
-- of effects, in order. A callback that runs in the middle of `HandleClose` is taken to leave this
-- connection alone; one that runs last in a function may be followed by any call.
pub mod Closing
pub mod Stream
pub mod Order
pub mod Reading
mod Tests
use evpp.Base.{
  ℕ, zero, suc, ◌+◌, ◌-◌, ◌≤◌, ◌%◌, ◌^◌, ◌*◌, Bool, true, false, not, List, [], ◌∷◌, ◌++◌, Option,
  none, some, ltb, leb, ◌==◌, if◌then◌else◌, ◌>>=◌, ◌&&◌, ◌||◌, length, take, drop, add_size,
}
use evpp.Errno.{Errno, is_rw_retriable, is_broken}
use evpp.Buffer.{
  Buffer, ReadResult, got, failed, buffer_length, write, next, to_string, next_all, reset,
  read_from_fd, total,
}
use evpp.Buffer
use evpp.Base.Memory.{copy_out}
use evpp.FdChannel.{FdChannel, Backend, is_writable}
use evpp.FdChannel

pub data Status : Type 0 where
  disconnected connecting connected disconnecting : Status

pub data ConnType : Type 0 where
  incoming outgoing : ConnType

-- What `send` returned, `none` for -1, and `errno` after it.
pub record SendResult : Type 0 where
  pub sent : Option ℕ
  pub errno : Errno

pub data Effect : Type 0 where
  -- The kernel took these bytes.
  transmit : List ℕ → Effect
  -- Tasks given to the loop.
  queue_write_complete queue_close : Effect
  queue_high_water : ℕ → Effect
  queue_send : List ℕ → Effect
  queue_shared : Effect
  -- Callbacks, the connection's with the status that it sees.
  call_connection : Status → Effect
  call_message call_close : Effect
  start_timer : ℕ → Effect
  cancel_timer : Effect

pub record TcpConn : Type 0 where
  pub status : Status
  pub conn_type : ConnType
  pub chan : FdChannel
  pub input_buffer : Buffer
  pub output_buffer : Buffer
  pub high_water_mark : ℕ
  -- Nanoseconds.
  pub close_delay : ℕ
  pub delay_close_timer : Bool
  -- The callbacks that are set; `msg_fn_` always is.
  pub conn_fn : Bool
  pub write_complete_fn : Bool
  pub high_water_mark_fn : Bool
  pub close_fn : Bool

-- An effect under a condition.
abbrev pub on : Bool → Effect → List Effect
on true e = e ∷ []
on false e = []

abbrev pub is_disconnected : Status → Bool
is_disconnected disconnected = true
is_disconnected _ = false

abbrev pub is_connected : Status → Bool
is_connected connected = true
is_connected _ = false

-- 128 * 1024 * 1024
abbrev pub default_high_water_mark : ℕ
default_high_water_mark = 134217728

-- The constructor, for a descriptor that is open.
pub new : TcpConn
new = record {
  status = disconnected;
  conn_type = incoming;
  chan = record (FdChannel.new false false) { read_fn = true; write_fn = true };
  input_buffer = Buffer.new Buffer.initial_size Buffer.cheap_prepend_size;
  output_buffer = Buffer.new Buffer.initial_size Buffer.cheap_prepend_size;
  high_water_mark = default_high_water_mark;
  close_delay = 0;
  delay_close_timer = false;
  conn_fn = false;
  write_complete_fn = false;
  high_water_mark_fn = false;
  close_fn = false;
}

-- The high-water callback is queued when the output buffer, of old length `n`, reaches the mark.
pub high_water : ℕ → ℕ → TcpConn → List Effect
high_water n k c =
    on (leb c.high_water_mark (add_size n k) && (ltb n c.high_water_mark && c.high_water_mark_fn))
      (queue_high_water (add_size n k))

-- Effects that came first.
abbrev pub after {ℓ} :
    {A : Type ℓ} → List Effect → Option (A × List Effect) → Option (A × List Effect)
after es none = none
after es (some (c, es')) = some (c, es ++ es')

module _ (sys : Backend) where
  pub handle_close : TcpConn → TcpConn × List Effect
  handle_close c = if is_disconnected c.status then (c, []) else (
    record c {
      status = disconnected;
      chan = FdChannel.close sys (FdChannel.disable_all_event sys c.chan);
      delay_close_timer = false;
    },
    on c.delay_close_timer cancel_timer
        ++ (on c.conn_fn (call_connection disconnecting) ++ on c.close_fn call_close),
  )

  pub handle_error : TcpConn → TcpConn × List Effect
  handle_error c = handle_close (record c { status = disconnecting })

  pub delay_close : TcpConn → TcpConn × List Effect
  delay_close c = handle_close (record c { status = disconnecting; delay_close_timer = false })

  -- `Close`, called on the loop's thread or on another.
  pub close : Bool → TcpConn → TcpConn × List Effect
  close in_loop c =
      if in_loop
      then handle_close (record c { status = disconnecting })
      else (record c { status = disconnecting }, queue_close ∷ [])

  pub on_attached_to_loop : TcpConn → TcpConn × List Effect
  on_attached_to_loop c = (
    record c { status = connected; chan = FdChannel.enable_read_event sys c.chan },
    on c.conn_fn (call_connection connected),
  )

  -- The new output buffer, and the write event on.
  pub buffered : Buffer → TcpConn → TcpConn
  buffered out c = record c {
    output_buffer = out;
    chan = if is_writable c.chan then c.chan else FdChannel.enable_write_event sys c.chan;
  }

  -- The end of `SendInLoop`: what the kernel did not take waits in the output buffer.
  pub queue_rest : List ℕ → TcpConn → Option (TcpConn × List Effect)
  queue_rest rest c =
      if length rest == 0
      then some (c, [])
      else (write c.output_buffer rest >>= λ out.
          some (buffered out c, high_water (buffer_length c.output_buffer) (length rest) c))

  -- The call of `send` from `SendInLoop`, with what it returned.
  pub direct : Option ℕ → Errno → List ℕ → TcpConn → Option (TcpConn × List Effect)
  direct none errno d c =
      if not (is_rw_retriable errno) && is_broken errno
      then some (handle_error c)
      else queue_rest d c
  direct (some n) errno d c =
      after
        (transmit (take n d) ∷ on ((length d - n == 0) && c.write_complete_fn) queue_write_complete)
        (queue_rest (drop n d) c)

  pub send_in_loop : SendResult → List ℕ → TcpConn → Option (TcpConn × List Effect)
  send_in_loop r d c =
      if is_disconnected c.status
      then some (c, [])
      else if not (is_writable c.chan) && (buffer_length c.output_buffer == 0)
      then direct r.sent r.errno d c
      else queue_rest d c

  -- `Send` of a string or a slice, on the loop's thread or on another.
  pub send : Bool → SendResult → List ℕ → TcpConn → Option (TcpConn × List Effect)
  send in_loop r d c =
      if not (is_connected c.status)
      then some (c, [])
      else if in_loop
      then send_in_loop r d c
      else some (c, queue_send d ∷ [])

  -- `Send` of a pointer and a length
  pub send_raw : Bool → SendResult → List ℕ → TcpConn → Option (TcpConn × List Effect)
  send_raw in_loop r d c = if in_loop then send_in_loop r d c else send in_loop r d c

  with_buffer : Buffer → Option (TcpConn × List Effect) → Option (TcpConn × List Effect × Buffer)
  with_buffer b none = none
  with_buffer b (some (c, es)) = some (c, es, b)

  -- `Send` of a `Buffer*`, which is emptied
  pub send_buffer : Bool → SendResult → Buffer → TcpConn → Option (TcpConn × List Effect × Buffer)
  send_buffer in_loop r b c =
      if not (is_connected c.status)
      then some (c, [], b)
      else if in_loop
      then (to_string b >>= λ d. with_buffer (reset b) (send_in_loop r d c))
      else (next_all b >>= λ (d, b'). some (c, queue_send d ∷ [], b'))

  -- `Send` of a `BufferPtr`; another thread's task reads the shared buffer when it runs
  pub send_shared : Bool → SendResult → Buffer → TcpConn → Option (TcpConn × List Effect)
  send_shared in_loop r b c =
      if not (is_connected c.status)
      then some (c, [])
      else if in_loop
      then (to_string b >>= λ d. send_in_loop r d c)
      else some (c, queue_shared ∷ [])

  -- `SendTotal`: from the start of the storage
  pub send_total : Bool → SendResult → Buffer → TcpConn → Option (TcpConn × List Effect)
  send_total in_loop r b c =
      if not (is_connected c.status)
      then some (c, [])
      else if in_loop
      then (copy_out b.storage 0 (total b) >>= λ d. send_in_loop r d c)
      else some (c, queue_shared ∷ [])

  -- `HandleWrite`, with what `send` of the whole output buffer returned
  written : List ℕ → TcpConn → TcpConn × List Effect
  written d c =
      if buffer_length c.output_buffer == 0
      then (
        record c { chan = FdChannel.disable_write_event sys c.chan },
        transmit d ∷ on c.write_complete_fn queue_write_complete,
      )
      else (c, transmit d ∷ [])

  not_written : Errno → TcpConn → TcpConn × List Effect
  not_written errno c = if is_rw_retriable errno then (c, []) else handle_error c

  wrote : Option ℕ → Errno → TcpConn → Option (TcpConn × List Effect)
  wrote none errno c = some (not_written errno c)
  wrote (some zero) errno c = some (not_written errno c)
  wrote (some (suc n)) errno c = do
    (d, out) ← next c.output_buffer (suc n)
    some (written d (record c { output_buffer = out }))

  pub handle_write : SendResult → TcpConn → Option (TcpConn × List Effect)
  handle_write r c = wrote r.sent r.errno c

  -- The peer has closed its side.
  at_end : ConnType → TcpConn → TcpConn × List Effect
  at_end outgoing c = handle_close (record c { status = disconnecting })
  at_end incoming c =
      let c' : TcpConn = record c { chan = FdChannel.disable_read_event sys c.chan } in
      if c.close_delay == 0
      then delay_close c'
      else (record c' { delay_close_timer = true }, start_timer c.close_delay ∷ [])

  -- After the read, by what it returned
  pub received : ReadResult → TcpConn → TcpConn × List Effect
  received (got (x ∷ xs)) c = (c, call_message ∷ [])
  received (got []) c = at_end c.conn_type c
  received (failed errno) c = if is_rw_retriable errno then (c, []) else handle_error c

  pub handle_read : ReadResult → TcpConn → Option (TcpConn × List Effect)
  handle_read r c = do
    input ← read_from_fd c.input_buffer r
    some (received r (record c { input_buffer = input }))
