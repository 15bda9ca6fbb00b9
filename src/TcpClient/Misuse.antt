-- ===== src/TcpClient/Misuse.antt =====
-- evpp/tcp_client.cc and connector.cc: a `Disconnect` that comes at a time it is not made for.
use evpp.Base.{
  ℕ, ◌≡◌, refl, ap, ap₂, ◌∙◌, true, false, List, [], ◌++◌, map, Option, none, some, ◌||◌, ◌>>=◌,
}
use evpp.FdChannel.{FdChannel, Backend}
use evpp.FdChannel
use evpp.TcpConn.{TcpConn}
use evpp.TcpConn
use evpp.Connector.{
  Connector, Dial, Status, disconnected, connecting, dns_resolving, connected, is_connected,
  is_resolving, is_disconnected, cancel, silence, silence_if, bind_result, hand_over, wait_writable,
}
use evpp.Connector
use evpp.TcpClient.{
  TcpClient, Effect, of_conn, start, retry_start, handle_write, disconnect_in_loop, leave_connector,
  close_conn, writable, on_connection, user, settled, connect, dialled, started, made,
}
use evpp.TcpClient.Leaving.{disconnect-run, leave-keeps}

module _ (sys : Backend) where
  -- When the user's callback for a new connection calls `Disconnect`, `HandleWrite` goes on to use
  -- the timer that the connector's `Cancel` has reset.
  pub disconnect_in_callback :
      (w : TcpClient)
      → w.held ≡ true
      → w.connector.status ≡ connecting
      → handle_write sys true none w ≡ none
  unfolding handle_write writable on_connection user settled disconnect_in_loop leave_connector
      close_conn hand_over cancel
  disconnect_in_callback w held s = simp (held, s)

  -- The states of a client that reconnects after a `Disconnect`.
  abbrev left_waiting : TcpClient → TcpClient
  left_waiting w = record w { auto_reconnect = false; conn = none; held = false }

  abbrev dialling_again : Dial → TcpClient → TcpClient
  dialling_again d w = record (left_waiting w) {
    retry = false;
    connector = wait_writable sys (record w.connector { timer = true; fd = d.fd; own_fd = true });
  }

  abbrev attached : TcpConn
  attached = (TcpConn.on_attached_to_loop sys made).0

  retry_start-run :
      (d : Dial) (w : TcpClient) (a : ℕ)
      → w.connector.raddr ≡ some a
      → d.bound ≡ none
      → d.dialled ≡ none
      → retry_start sys false d (left_waiting w) ≡ some (dialling_again d w, [])
  unfolding retry_start start started connect Connector.connect dialled wait_writable
  retry_start-run d w a addr bound dial =
      ap
        (started sys false d (record (left_waiting w) {
          retry = false;
          connector = record w.connector { timer = true };
        }))
        addr
      ∙ ap₂
          (λ x y.
            dialled sys false
              (record (left_waiting w) {
                retry = false;
                connector = record w.connector { timer = true };
              })
              (bind_result sys x y (record w.connector { timer = true; fd = d.fd; own_fd = true })))
          bound dial

  -- A `Disconnect` while a retry is scheduled does not stop it: the attempt is made, and if the
  -- peer accepts it the client is connected, although it was disconnected.
  pub disconnect_in_vain :
      (w : TcpClient) (d : Dial) (a : ℕ)
      → w.held ≡ true
      → w.connector.status ≡ disconnected
      → w.connector.raddr ≡ some a
      → d.bound ≡ none
      → d.dialled ≡ none
      → (w' : TcpClient) × (fx : List Effect) × (c : TcpConn) × ((disconnect_in_loop sys w
            >>= λ (u, es). retry_start sys false d u >>= λ (v, es'). handle_write sys false none v)
          ≡ some (w', fx))
        × (w'.conn ≡ some c)
        × (w'.auto_reconnect ≡ false)
  unfolding handle_write writable on_connection user settled hand_over wait_writable
  disconnect_in_vain w d a held s addr bound dial =
      let kept =
        leave-keeps sys (record w { auto_reconnect = false; conn = none })
          (ap (λ (x : Status). is_connected x || is_disconnected x) s) in
      (
        record (dialling_again d w) {
          conn = some attached;
          connector = record (dialling_again d w).connector {
            status = connected;
            fd = none;
            own_fd = false;
            chan = some (
                silence sys (
                  FdChannel.attach_to_loop sys
                    (record (FdChannel.new false true) { write_fn = true })));
            timer = false;
          };
        },
        map of_conn (TcpConn.on_attached_to_loop sys made).1 ++ [],
        attached,
        ap (λ r. r >>= λ (u, es). again u) (disconnect-run sys w held)
            ∙ ap (λ (r : TcpClient × List Effect). again r.0) kept
            ∙ ap (λ r. r >>= λ (v, es). handle_write sys false none v)
                (retry_start-run d w a addr bound dial),
        refl,
        refl,
      )
    where
      again : TcpClient → Option (TcpClient × List Effect)
      again u = retry_start sys false d u >>= λ (v, es). handle_write sys false none v
