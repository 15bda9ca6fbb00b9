-- ===== src/TcpClient/Tests.antt =====
-- Each theorem about evpp/tcp_client.cc and connector.cc at a client of its own.
use evpp.Base.{◌≡◌, refl, true, false, List, [], ◌∷◌, some, none, ◌>>=◌}
use evpp.Errno.{econnrefused, einprogress, etimedout}
use evpp.FdChannel.{FdChannel}
use evpp.FdChannel
use evpp.FdChannel.Watch.{healthy}
use evpp.Connector.{Dial, disconnected, connecting}
use evpp.TcpClient.{TcpClient, Effect, new, connect_again, disconnect_in_loop}
use evpp.TcpClient.Connecting.{IsTrying, Tries, dialling}
use evpp.TcpClient.Trying.{
  times_out, becomes_writable, is_resolved, retries, is_lost, run, connect_again-run,
}
use evpp.TcpClient.Leaving.{disconnect_lem}

abbrev in_progress : Dial
in_progress = record { fd = some 7; bound = none; dialled = some einprogress }

abbrev accepted : Dial
accepted = record { fd = some 8; bound = none; dialled = none }

-- The first attempt is refused, the second one is connected and lost.
connect_again-run_example : Tries (
    connect_again healthy false in_progress (new none) >>= λ (w, fx).
    run healthy
      (is_resolved in_progress etimedout (9 ∷ [])
        ∷ becomes_writable (some econnrefused)
        ∷ retries accepted
        ∷ becomes_writable none
        ∷ is_lost accepted
        ∷ times_out
        ∷ [])
      w)
connect_again-run_example = connect_again-run healthy none in_progress (
    is_resolved in_progress etimedout (9 ∷ [])
    ∷ becomes_writable (some econnrefused)
    ∷ retries accepted
    ∷ becomes_writable none
    ∷ is_lost accepted
    ∷ times_out
    ∷ [])

abbrev open_channel : FdChannel
open_channel = record (FdChannel.new false true) { write_fn = true }

abbrev dialling_client : TcpClient
dialling_client = record {
  remote = some 9;
  auto_reconnect = true;
  conn = none;
  connector = record {
    status = connecting;
    raddr = some 9;
    fd = some 7;
    own_fd = true;
    chan = some open_channel;
    timer = true;
    dns_resolver = false;
  };
  held = true;
  retry = false;
}

dialling_client-IsTrying : IsTrying dialling_client
dialling_client-IsTrying = record {
  auto = refl;
  held = refl;
  phase = dialling refl refl open_channel refl refl refl;
}

disconnect_lem_example :
    (w' : TcpClient) × (fx : List Effect) × (disconnect_in_loop healthy dialling_client
      ≡ some (w', fx))
    × (w'.conn ≡ none)
    × (run healthy (times_out ∷ becomes_writable none ∷ []) w' ≡ some (w', []))
disconnect_lem_example =
    disconnect_lem healthy dialling_client (times_out ∷ becomes_writable none ∷ [])
      dialling_client-IsTrying refl

abbrev waiting_client : TcpClient
waiting_client = record dialling_client {
  connector = record {
    status = disconnected;
    raddr = some 9;
    fd = none;
    own_fd = false;
    chan = none;
    timer = false;
    dns_resolver = false;
  };
  retry = true;
}
