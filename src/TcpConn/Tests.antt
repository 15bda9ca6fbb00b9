-- ===== src/TcpConn/Tests.antt =====
-- Each theorem about evpp/tcp_conn.cc at a connection of its own.
use evpp.Base.{◌≡◌, refl, Bool, true, false, List, [], ◌∷◌, ◌++◌, some, arith}
use evpp.Errno.{eagain}
use evpp.Buffer.{Buffer}
use evpp.FdChannel.{FdChannel, is_writable}
use evpp.FdChannel.Watch.{IsSynced, healthy}
use evpp.TcpConn.{TcpConn, connected, incoming, SendResult, Effect, send, handle_close}
use evpp.TcpConn.Stream.{waiting, IsSound, Forwards, transmitted}
use evpp.TcpConn.Order.{Trace, start, sends, send-Forwards, Trace-in_order}
use evpp.TcpConn.Closing.{IsClosed, farewell, before_close, finish, user_close, finish_lem}

abbrev empty_buffer : Buffer
empty_buffer = record {
  storage = 0 ∷ 0 ∷ 0 ∷ 0 ∷ [];
  capacity = 4;
  read_index = 1;
  write_index = 1;
  reserved_prepend_size = 1;
}

abbrev half_full : Buffer
half_full = record empty_buffer { storage = 0 ∷ 7 ∷ 8 ∷ 0 ∷ []; write_index = 3 }

abbrev watching : Bool → FdChannel
watching w = record {
  attached = true;
  events = record { read = true; write = w };
  event = true;
  registered = some (record { read = true; write = w });
  read_fn = true;
  write_fn = true;
}

-- A server's connection with nothing to send.
abbrev calm : TcpConn
calm = record {
  status = connected;
  conn_type = incoming;
  chan = watching false;
  input_buffer = half_full;
  output_buffer = empty_buffer;
  high_water_mark = 100;
  close_delay = 3;
  delay_close_timer = false;
  conn_fn = true;
  write_complete_fn = true;
  high_water_mark_fn = false;
  close_fn = true;
}

calm-IsSound : IsSound calm
unfolding is_writable
calm-IsSound = record { valid = omega arith; armed = refl }

calm-IsSynced : IsSynced calm.chan
calm-IsSynced = record { flag = refl; watched = refl }

-- The kernel takes two of three bytes, then is full, and takes the last one later.
abbrev partly : SendResult
partly = record { sent = some 2; errno = eagain }

first_send : Forwards calm (1 ∷ 2 ∷ 3 ∷ []) (send healthy true partly (1 ∷ 2 ∷ 3 ∷ []) calm)
first_send =
    send-Forwards healthy partly (1 ∷ 2 ∷ 3 ∷ []) calm-IsSound refl (omega arith) (omega arith)

abbrev TwoSteps : TcpConn → List Effect → Type 0
TwoSteps c es = Trace healthy calm c ([] ++ 1 ∷ 2 ∷ 3 ∷ []) ([] ++ transmitted es)

after_send : TwoSteps first_send.final first_send.effects
after_send = sends start partly (1 ∷ 2 ∷ 3 ∷ []) refl (omega arith) (omega arith) first_send.returns

Trace-in_order_example :
    IsSound first_send.final
    × (transmitted first_send.effects ++ waiting first_send.final ≡ waiting calm ++ 1 ∷ 2 ∷ 3 ∷ [])
Trace-in_order_example = Trace-in_order healthy after_send calm-IsSound

finish_lem_example :
    IsClosed (finish user_close calm).0
    × ((finish user_close calm).1 ≡ farewell (before_close user_close calm))
    × (handle_close healthy (finish user_close calm).0 ≡ ((finish user_close calm).0, []))
finish_lem_example = finish_lem user_close calm calm-IsSynced
