-- ===== src/NsqConn.antt =====
-- apps/evnsq/nsq_conn.h, nsq_conn.cc and message.h: a connection with one nsqd, and the publish commands
-- on it. The callbacks are effects, listed in order.
pub mod Acks
pub mod Frames
pub mod Receiving
mod Tests
use evpp.Base.{
  ℕ, zero, suc, ◌+◌, ◌-◌, ◌*◌, ◌^◌, Bool, true, false, not, List, [], ◌∷◌, ◌++◌, Option, none, some,
  ◌==◌, ◌&&◌, ◌||◌, ◌>>=◌, if◌then◌else◌, leb, ltb, length, take, drop, add_size, sub_size,
}
use evpp.Base.Dictionary.{codes, is_same}
use evpp.NsqCommand.{Command, write_to, inc_retried_time}
use evpp.NsqCommand

pub data Status : Type 0 where
  disconnected connecting identifying authenticating connected subscribing ready disconnecting :
      Status

pub record NsqConn : Type 0 where
  pub status : Status
  pub wait_ack : List Command
  pub published_count : ℕ
  pub published_ok_count : ℕ
  pub published_failed_count : ℕ

pub record Message : Type 0 where
  pub id : List ℕ
  pub body : List ℕ

pub data Effect : Type 0 where
  sends : List ℕ → Effect
  connects disconnects : Effect
  tells_message : Message → Effect
  tells_publish_response : Option Command → Bool → Effect

unfoldable pub new : NsqConn
new = record {
  status = disconnected;
  wait_ack = [];
  published_count = 0;
  published_ok_count = 0;
  published_failed_count = 0;
}

-- `Connect`
unfoldable pub connect : NsqConn → NsqConn × List Effect
connect n = (record n { status = connecting }, connects ∷ [])

-- `Close`
pub close : NsqConn → NsqConn × List Effect
close n = (record n { status = disconnecting }, disconnects ∷ [])

-- `Reconnect`
unfoldable pub reconnect : NsqConn → NsqConn × List Effect
reconnect n = (
  record n {
    published_failed_count = n.published_failed_count + length n.wait_ack;
    wait_ack = [];
    status = connecting;
  },
  disconnects ∷ connects ∷ [],
)

abbrev pub write_command : Command → Effect
write_command c = sends (write_to c)

-- `Subscribe`
unfoldable pub subscribe : List ℕ → List ℕ → NsqConn → NsqConn × List Effect
subscribe topic channel n = (
  record n { status = subscribing },
  write_command (NsqCommand.subscribe topic channel NsqCommand.new) ∷ [],
)

-- `PushWaitACKCommand`
unfoldable pub push_wait_ack_command : Command → NsqConn → NsqConn
push_wait_ack_command c n = record n {
  wait_ack = n.wait_ack ++ c ∷ [];
  published_count = n.published_count + 1;
}

-- `PopWaitACKCommand`
pub pop_wait_ack_command : NsqConn → Option Command × NsqConn
pop_wait_ack_command n = elim n.wait_ack [
  | [] ↦ (none, n)
  | ◌∷◌ c rest ↦ (some c, record n { wait_ack = rest })
]

-- `WritePublishCommand`, of a producer with this high-water mark
unfoldable pub write_publish_command : ℕ → Command → NsqConn → Bool × NsqConn × List Effect
write_publish_command mark c n =
    if leb mark (length n.wait_ack)
    then (false, n, [])
    else (true, push_wait_ack_command c n, write_command c ∷ [])

-- A publish command that has failed
pub retry : ℕ → Command → NsqConn → NsqConn × List Effect
retry mark c n =
    if leb 2 c.retried_time
    then (n, tells_publish_response (some c) false ∷ [])
    else (let (sent, n', es) = write_publish_command mark (inc_retried_time c) n in (n', es))

pub publish_failed : ℕ → Option Command × NsqConn → NsqConn × List Effect
publish_failed mark (none, n) = (n, [])
publish_failed mark (some c, n) =
    retry mark c (record n { published_failed_count = n.published_failed_count + 1 })

pub publish_ok : Option Command × NsqConn → NsqConn × List Effect
publish_ok (c, n) =
    (record n { published_ok_count = n.published_ok_count + 1 }, tells_publish_response c true ∷ [])

-- `OnPublishResponse`
pub on_publish_response : ℕ → List ℕ → NsqConn → NsqConn × List Effect
on_publish_response mark d n =
    if is_same d (codes "OK")
    then publish_ok (pop_wait_ack_command n)
    else publish_failed mark (pop_wait_ack_command n)
