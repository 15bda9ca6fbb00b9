-- ===== src/TcpClient.antt =====
-- evpp/tcp_client.cc with the methods of evpp/connector.cc that call it back, on the loop's thread.
-- `leaves` says whether the user's connection callback calls `Disconnect`, `sys` what libevent
-- returns; effects are listed in order. `none` is a call through a pointer that is null.
pub mod Connecting
pub mod Trying
pub mod Leaving
pub mod Misuse
mod Tests
use evpp.Base.{
  ℕ, Bool, true, false, not, List, [], ◌∷◌, ◌++◌, map, Option, none, some, ◌&&◌, ◌||◌,
  if◌then◌else◌, ◌>>=◌,
}
use evpp.Errno.{Errno, etimedout, is_connect_refused}
use evpp.FdChannel.{Backend}
use evpp.TcpConn.{TcpConn, outgoing}
use evpp.TcpConn
use evpp.Connector.{
  Connector, Dial, Status, connecting, dns_resolving, dns_resolved, is_connected, is_disconnected,
  give_up, hand_over,
}
use evpp.Connector

pub record TcpClient : Type 0 where
  -- The parsed address; `none` for the name of a host.
  pub remote : Option ℕ
  pub auto_reconnect : Bool
  pub conn : Option TcpConn
  -- The connector of the last `Connect`, and whether `connector_` still points to it.
  pub connector : Connector
  pub held : Bool
  -- A timer of `RunAfter` will call its `Start`.
  pub retry : Bool

pub data Effect : Type 0 where
  -- What the connection does.
  of_conn : TcpConn.Effect → Effect
  -- The user's callback, with a connection that has no descriptor.
  call_failed : Effect
  resolve : Effect
  close_socket : ℕ → Effect
  schedule_start : Effect

pub new : Option ℕ → TcpClient
new addr = record {
  remote = addr;
  auto_reconnect = true;
  conn = none;
  connector = Connector.new addr;
  held = false;
  retry = false;
}

-- Effects that came first.
abbrev pub then_do :
    List Effect → Option (TcpClient × List Effect) → Option (TcpClient × List Effect)
then_do es none = none
then_do es (some (w, es')) = some (w, es ++ es')

-- The connection that `OnConnection` makes
pub made : TcpConn
made = record TcpConn.new { conn_type = outgoing; conn_fn = true; close_fn = true }

abbrev pub closing : Option ℕ → List Effect
closing none = []
closing (some fd) = close_socket fd ∷ []

module _ (sys : Backend) where
  -- `conn_->Close()` calls `OnRemoveConnection`, which forgets the connection.
  pub close_conn : Option TcpConn → TcpClient → TcpClient × List Effect
  close_conn none w = (w, [])
  close_conn (some c) w = (record w { conn = none }, map of_conn (TcpConn.close sys true c).1)

  pub leave_connector : TcpClient → TcpClient × List Effect
  leave_connector w =
      if is_connected w.connector.status || is_disconnected w.connector.status
      then (record w { held = false }, [])
      else (
        record w { connector = (Connector.cancel sys w.connector).0; held = false },
        if (Connector.cancel sys w.connector).1 then call_failed ∷ [] else [],
      )

  -- `DisconnectInLoop`; a callback during `Cancel` is taken to leave the client alone.
  pub disconnect_in_loop : TcpClient → Option (TcpClient × List Effect)
  disconnect_in_loop w =
      let (w', es) = close_conn w.conn (record w { auto_reconnect = false }) in
      if w.held then then_do es (some (leave_connector w')) else none

  -- The user's connection callback
  pub user : Bool → TcpClient → Option (TcpClient × List Effect)
  user leaves w = if leaves then disconnect_in_loop w else some (w, [])

  -- The part of `HandleError` behind the callback
  pub reconnect_later : TcpClient → TcpClient × List Effect
  reconnect_later w =
      if w.auto_reconnect
      then (
        record w { connector = record w.connector { fd = none }; retry = true },
        closing w.connector.fd ++ schedule_start ∷ [],
      )
      else (w, [])

  -- `HandleError` of the connector, with the errno that it finds
  pub handle_error : Bool → Errno → TcpClient → Option (TcpClient × List Effect)
  handle_error leaves errno w = do
    c ← give_up sys w.connector
    let told = is_connect_refused errno || not w.auto_reconnect
    (w', es) ← user (told && leaves) (record w { connector = c })
    then_do (if told then call_failed ∷ es else es) (some (reconnect_later w'))

  dialled : Bool → TcpClient → Connector × Option Errno → Option (TcpClient × List Effect)
  dialled leaves w (c, none) = some (record w { connector = c }, [])
  dialled leaves w (c, some errno) = handle_error leaves errno (record w { connector = c })

  -- `Connect` of the connector
  pub connect : Bool → Dial → TcpClient → Option (TcpClient × List Effect)
  connect leaves d w = dialled leaves w (Connector.connect sys d w.connector)

  started : Bool → Dial → TcpClient → Option ℕ → Option (TcpClient × List Effect)
  started leaves d w (some addr) = connect leaves d w
  started leaves d w none = some (
    record w { connector = record w.connector { status = dns_resolving; dns_resolver = true } },
    resolve ∷ [],
  )

  -- `Start` of the connector
  pub start : Bool → Dial → TcpClient → Option (TcpClient × List Effect)
  start leaves d w =
      started leaves d (record w { connector = record w.connector { timer = true } })
        w.connector.raddr

  -- `Start` from the timer of `RunAfter`
  pub retry_start : Bool → Dial → TcpClient → Option (TcpClient × List Effect)
  retry_start leaves d w = start leaves d (record w { retry = false })

  -- `Connect` of the client
  pub connect_again : Bool → Dial → TcpClient → Option (TcpClient × List Effect)
  connect_again leaves d w =
      start leaves d (record w { connector = Connector.new w.remote; held = true })

  -- `OnConnection` with a descriptor
  pub on_connection : Bool → TcpClient → Option (TcpClient × List Effect)
  on_connection leaves w =
      let (c, es) = TcpConn.on_attached_to_loop sys made in
      then_do (map of_conn es) (user leaves (record w { conn = some c }))

  settled : List Effect → TcpClient → Option (TcpClient × List Effect)
  settled es w = hand_over sys w.connector >>= λ c. some (record w { connector = c }, es)

  pub writable : Bool → Option Errno → TcpClient → Option (TcpClient × List Effect)
  writable leaves (some errno) w = handle_error leaves errno w
  writable leaves none w = on_connection leaves w >>= λ (w', es). settled es w'

  -- `HandleWrite` of the connector; the error is what `SO_ERROR` or `getsockopt` says.
  pub handle_write : Bool → Option Errno → TcpClient → Option (TcpClient × List Effect)
  handle_write leaves err w =
      if is_disconnected w.connector.status then some (w, []) else writable leaves err w

  pub on_connect_timeout : Bool → TcpClient → Option (TcpClient × List Effect)
  on_connect_timeout leaves w = handle_error leaves etimedout w

  -- `OnDNSResolved`
  pub on_dns_resolved : Bool → Dial → Errno → List ℕ → TcpClient → Option (TcpClient × List Effect)
  on_dns_resolved leaves d errno [] w = handle_error leaves errno w
  on_dns_resolved leaves d errno (a ∷ rest) w =
      connect leaves d
        (record w { connector = record w.connector { status = dns_resolved; raddr = some a } })

  -- `OnRemoveConnection` of a connection that has ended, and `Reconnect`
  pub on_remove_connection : Bool → Dial → TcpClient → Option (TcpClient × List Effect)
  on_remove_connection leaves d w =
      let w' : TcpClient = record w { conn = none } in
      if w.auto_reconnect then connect_again leaves d w' else some (w', [])
