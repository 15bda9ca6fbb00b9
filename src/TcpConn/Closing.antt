-- ===== src/TcpConn/Closing.antt =====
-- evpp/tcp_conn.cc: how a connection ends, on each of the ways there.
use evpp.Base.{◌≡◌, refl, true, false, List, [], ◌∷◌, ◌++◌, none, ap}
use evpp.FdChannel.{FdChannel, Backend, Events, no_events}
use evpp.FdChannel
use evpp.FdChannel.Watch.{IsSynced, healthy, close_silent, close_deaf}
use evpp.TcpConn.{
  disconnected, disconnecting, outgoing, Effect, call_connection, call_close, TcpConn, cancel_timer,
  queue_close, is_disconnected, on, handle_close, handle_error, delay_close, close, at_end,
}

-- The effects of closing: the timer is cancelled, then the user is told, then the owner.
abbrev pub farewell : TcpConn → List Effect
farewell c =
    on c.delay_close_timer cancel_timer
    ++ (on c.conn_fn (call_connection disconnecting) ++ on c.close_fn call_close)

-- Closed for good: libevent does not know the descriptor, no callback is left, no timer runs.
pub record IsClosed (c : TcpConn) : Type 0 where
  pub ended : c.status ≡ disconnected
  pub unwatched : c.chan.registered ≡ none
  pub freed : c.chan.event ≡ false
  pub deaf : (c.chan.read_fn ≡ false) × (c.chan.write_fn ≡ false)
  pub no_timer : c.delay_close_timer ≡ false

handle_close_lem :
    (c : TcpConn)
    → IsSynced c.chan
    → is_disconnected c.status ≡ false
    → IsClosed (handle_close healthy c).0
      × ((handle_close healthy c).1 ≡ farewell c)
      × (handle_close healthy (handle_close healthy c).0 ≡ ((handle_close healthy c).0, []))
unfolding handle_close
handle_close_lem c s up =
    let gone = close_silent healthy no_events (λ x. x) s in
    rw up (
      record {
        ended = refl;
        unwatched = gone.0;
        freed = gone.2;
        deaf = close_deaf healthy (FdChannel.disable_all_event healthy c.chan);
        no_timer = refl;
      },
      refl,
      refl,
    )

-- The ways to end a connection: an error, the end of the delay after the peer's close, `Close`,
-- and the peer's close of an outgoing connection.
pub data Ending : Type 0 where
  failure delayed user_close peer_close : Ending

pub finish : Ending → TcpConn → TcpConn × List Effect
finish failure = handle_error healthy
finish delayed = delay_close healthy
finish user_close = close healthy true
finish peer_close = at_end healthy outgoing

-- What each of them does first.
pub before_close : Ending → TcpConn → TcpConn
before_close delayed c = record c { status = disconnecting; delay_close_timer = false }
before_close _ c = record c { status = disconnecting }

-- Of a connection whose channel says what libevent watches, if libevent takes the event out when it is
-- asked to, each ending closes the connection for good, cancels its timer, tells the user and then the
-- owner, and a further `HandleClose` does nothing. That holds whatever the status: of a connection
-- that has ended already, the user and the owner are told again.
pub finish_lem :
    (e : Ending) (c : TcpConn)
    → IsSynced c.chan
    → IsClosed (finish e c).0
      × ((finish e c).1 ≡ farewell (before_close e c))
      × (handle_close healthy (finish e c).0 ≡ ((finish e c).0, []))
unfolding finish before_close handle_error delay_close close at_end
finish_lem failure c s = handle_close_lem (before_close failure c) s refl
finish_lem delayed c s = handle_close_lem (before_close delayed c) s refl
finish_lem user_close c s = handle_close_lem (before_close user_close c) s refl
finish_lem peer_close c s = handle_close_lem (before_close peer_close c) s refl

-- The guard of `HandleClose` against a second call does not guard `Close`: on the loop's thread
-- every further `Close` tells the user and the owner again.
pub close_twice :
    (sys : Backend) (c : TcpConn)
    → let c' = (close sys true c).0 in
      (c'.status ≡ disconnected)
      × ((close sys true c').1
          ≡ on c.conn_fn (call_connection disconnecting) ++ on c.close_fn call_close)
unfolding close handle_close
close_twice sys c = (refl, refl)

-- A `Close` from another thread takes effect when its task runs, unless the connection has ended
-- by then: then the task does nothing.
pub close_queued :
    (e : Ending) (c : TcpConn)
    → IsSynced c.chan
    → let c' = (close healthy false c).0 in
      ((close healthy false c).1 ≡ queue_close ∷ [])
      × (c'.status ≡ disconnecting)
      × IsClosed (handle_close healthy c').0
      × ((handle_close healthy (finish e c').0).1 ≡ [])
unfolding close
close_queued e c s =
    let c' : TcpConn = record c { status = disconnecting } in
    (refl, refl, (handle_close_lem c' s refl).0, ap (λ p. p.1) (finish_lem e c' s).2)
