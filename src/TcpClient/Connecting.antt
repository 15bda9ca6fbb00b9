-- ===== src/TcpClient/Connecting.antt =====
-- evpp/tcp_client.cc and connector.cc: each step of a client that reconnects.
use evpp.Base.{
  ℕ, ◌≡◌, refl, ap, Bool, true, false, List, [], ◌∷◌, ◌++◌, map, Option, none, some, if◌then◌else◌,
  ◌>>=◌, inl, inr, Bool-cases,
}
use evpp.Errno.{Errno, is_connect_refused, is_connect_retriable}
use evpp.FdChannel.{FdChannel, Backend}
use evpp.FdChannel
use evpp.FdChannel.Watch.{close_deaf}
use evpp.TcpConn.{TcpConn, call_connection}
use evpp.TcpConn
use evpp.Connector.{
  Connector, Dial, Status, disconnected, connecting, dns_resolving, dns_resolved, connected,
  is_resolving, is_disconnected, give_up, hand_over, handed, silence, wait_writable, given_up,
  bind_result,
}
use evpp.Connector
use evpp.TcpClient.{
  TcpClient, Effect, of_conn, call_failed, schedule_start, closing, handle_error, connect, start,
  on_connection, user, reconnect_later, dialled, started, settled, writable, made,
}

-- Where an attempt stands: about to be made again, looking up the host, waiting for the socket,
-- connected.
pub data Phase (w : TcpClient) : Type 0 where
  waiting :
      w.connector.status ≡ disconnected
      → w.connector.timer ≡ false
      → w.retry ≡ true
      → w.conn ≡ none
      → Phase w
  resolving :
      w.connector.status ≡ dns_resolving
      → w.connector.timer ≡ true
      → w.connector.dns_resolver ≡ true
      → w.retry ≡ false
      → w.conn ≡ none
      → Phase w
  dialling :
      w.connector.status ≡ connecting
      → w.connector.timer ≡ true
      → (ch : FdChannel) → w.connector.chan ≡ some ch
      → w.retry ≡ false
      → w.conn ≡ none
      → Phase w
  up :
      w.connector.status ≡ connected
      → w.connector.timer ≡ false
      → w.retry ≡ false
      → (c : TcpConn) → w.conn ≡ some c
      → (ch : FdChannel) → w.connector.chan ≡ some ch
      → ch.write_fn ≡ false
      → Phase w

pub record IsTrying (w : TcpClient) : Type 0 where
  pub auto : w.auto_reconnect ≡ true
  pub held : w.held ≡ true
  pub phase : Phase w

-- The operation succeeds, and the client keeps trying.
abbrev pub Tries : Option (TcpClient × List Effect) → Type 0
Tries r = (w : TcpClient) × (fx : List Effect) × (r ≡ some (w, fx)) × IsTrying w

module _ (sys : Backend) where
  -- After an error, and what the user and the kernel see of it.
  abbrev after_error : TcpClient → TcpClient
  after_error w = record w {
    connector = record (given_up sys w.connector) { fd = none };
    retry = true;
  }

  abbrev error_effects : Bool → TcpClient → List Effect
  error_effects told w =
      (if told then call_failed ∷ [] else []) ++ (closing w.connector.fd ++ schedule_start ∷ [])

  handle_error-run :
      (errno : Errno) (w : TcpClient)
      → w.auto_reconnect ≡ true
      → w.connector.timer ≡ true
      → handle_error sys false errno w
        ≡ some (after_error w, error_effects (is_connect_refused errno) w)
  unfolding handle_error give_up user reconnect_later
  handle_error-run errno w auto timer = elim (Bool-cases (is_connect_refused errno)) [
    | inl e ↦ simp (timer, e, auto)
    | inr e ↦ simp (timer, e, auto)
  ]

  pub handle_error-Tries :
      (errno : Errno) (w : TcpClient)
      → w.auto_reconnect ≡ true
      → w.held ≡ true
      → w.conn ≡ none
      → w.connector.timer ≡ true
      → Tries (handle_error sys false errno w)
  handle_error-Tries errno w auto held down timer = (
    after_error w,
    error_effects (is_connect_refused errno) w,
    handle_error-run errno w auto timer,
    record { auto = auto; held = held; phase = waiting refl refl refl down },
  )

  pub waits-Tries :
      (c : Connector) (w : TcpClient)
      → w.auto_reconnect ≡ true
      → w.held ≡ true
      → w.conn ≡ none
      → w.retry ≡ false
      → c.timer ≡ true
      → Tries (some (record w { connector = wait_writable sys c }, []))
  unfolding wait_writable
  waits-Tries c w auto held down idle timer = (
    record w { connector = wait_writable sys c },
    [],
    refl,
    record { auto = auto; held = held; phase = dialling refl timer _ refl idle down },
  )

  dialled-Tries :
      (bound dial : Option Errno) (c : Connector) (w : TcpClient)
      → w.auto_reconnect ≡ true
      → w.held ≡ true
      → w.conn ≡ none
      → w.retry ≡ false
      → c.timer ≡ true
      → Tries (dialled sys false w (bind_result sys bound dial c))
  unfolding dialled
  dialled-Tries (some e) dial c w auto held down idle timer =
      handle_error-Tries e (record w { connector = c }) auto held down timer
  dialled-Tries none none c w auto held down idle timer = waits-Tries c w auto held down idle timer
  dialled-Tries none (some e) c w auto held down idle timer =
      elim (Bool-cases (is_connect_retriable e)) [
        | inl y ↦ rw y (waits-Tries c w auto held down idle timer)
        | inr n ↦ rw n (handle_error-Tries e (record w { connector = c }) auto held down timer)
      ]

  pub connect-Tries :
      (d : Dial) (w : TcpClient)
      → w.auto_reconnect ≡ true
      → w.held ≡ true
      → w.conn ≡ none
      → w.retry ≡ false
      → w.connector.timer ≡ true
      → Tries (connect sys false d w)
  unfolding connect Connector.connect
  connect-Tries d w =
      dialled-Tries d.bound d.dialled (record w.connector { fd = d.fd; own_fd = true }) w

  pub start-Tries :
      (d : Dial) (w : TcpClient)
      → w.auto_reconnect ≡ true
      → w.held ≡ true
      → w.conn ≡ none
      → w.retry ≡ false
      → Tries (start sys false d w)
  unfolding start started
  start-Tries d w auto held down idle = by_address w.connector.raddr
    where
      w' : TcpClient
      w' = record w { connector = record w.connector { timer = true } }

      by_address : (addr : Option ℕ) → Tries (started sys false d w' addr)
      by_address (some a) = connect-Tries d w' auto held down idle refl
      by_address none = (
        _,
        _,
        refl,
        record { auto = auto; held = held; phase = resolving refl refl refl idle down },
      )

  hand_over-some :
      (c : Connector) (ch : FdChannel)
      → c.timer ≡ true
      → c.chan ≡ some ch
      → hand_over sys c ≡ handed sys (some ch) c
  unfolding hand_over
  hand_over-some c ch timer open_ = simp (timer, open_)

  -- The connection when it has been attached, and what it does.
  abbrev attached : TcpConn
  attached = (TcpConn.on_attached_to_loop sys made).0

  abbrev greeting : List Effect
  greeting = map of_conn (TcpConn.on_attached_to_loop sys made).1 ++ []

  pub silenced : (ch : FdChannel) → (silence sys ch).write_fn ≡ false
  silenced ch = (close_deaf sys (FdChannel.disable_all_event sys ch)).1

  pub writable-Tries :
      (err : Option Errno) (w : TcpClient) (ch : FdChannel)
      → w.auto_reconnect ≡ true
      → w.held ≡ true
      → w.conn ≡ none
      → w.retry ≡ false
      → w.connector.timer ≡ true
      → w.connector.chan ≡ some ch
      → Tries (writable sys false err w)
  unfolding writable on_connection user settled
  writable-Tries (some e) w ch auto held down idle timer open_ =
      handle_error-Tries e w auto held down timer
  writable-Tries none w ch auto held down idle timer open_ = (
    record w {
      conn = some attached;
      connector = record w.connector {
        status = connected;
        fd = none;
        own_fd = false;
        chan = some (silence sys ch);
        timer = false;
      };
    },
    greeting,
    ap (λ r. r >>= λ c. some (record w { conn = some attached; connector = c }, greeting))
        (hand_over-some w.connector ch timer open_),
    record {
      auto = auto;
      held = held;
      phase = up refl refl idle attached refl (silence sys ch) refl (silenced ch);
    },
  )
