-- ===== src/NsqProducer.antt =====
-- apps/evnsq/producer.h and producer.cc: the producer, a client whose commands go to its connections in
-- turn. The counters have no bound here.
pub mod Changes
pub mod Counting
mod Tests
use evpp.Base.{
  ℕ, zero, suc, ◌+◌, Bool, true, false, List, [], ◌∷◌, ◌++◌, Option, none, some, ◌==◌,
  if◌then◌else◌, leb, length,
}
use evpp.NsqClient.{Client, Conn, deref, store}
use evpp.NsqClient
use evpp.NsqCommand.{Command}
use evpp.NsqCommand
use evpp.NsqConn.{NsqConn, Effect, tells_publish_response, write_publish_command}
use evpp.NsqConn

pub record Producer : Type 0 where
  pub client : Client
  pub current_conn_index : ℕ
  pub published_count : ℕ
  pub published_ok_count : ℕ
  pub published_failed_count : ℕ
  pub ready_fn : Bool
  pub high_water_mark : ℕ

unfoldable pub new : Producer
new = record {
  client = record (NsqClient.new NsqClient.producer) { ready_to_publish_fn = true };
  current_conn_index = 0;
  published_count = 0;
  published_ok_count = 0;
  published_failed_count = 0;
  ready_fn = false;
  high_water_mark = 1024;
}

pub nth : ℕ → List ℕ → Option ℕ
nth i [] = none
nth zero (p ∷ ps) = some p
nth (suc i) (p ∷ ps) = nth i ps

-- `GetNextConn` from an index that is in range
abbrev pub next_from : ℕ → Producer → Option ℕ × Producer
next_from i s = (nth i s.client.conns, record s { current_conn_index = i + 1 })

pub get_next_conn : Producer → Option ℕ × Producer
get_next_conn s =
    if NsqClient.is_empty s.client.conns
    then (none, s)
    else next_from
        (if leb (length s.client.conns) s.current_conn_index then 0 else s.current_conn_index) s

abbrev pub Answer : Type 0
Answer = Bool × Producer × List (ℕ × List Effect)

abbrev pub add_failed : Bool → ℕ → Producer → Producer
add_failed rc k s =
    if rc then s else record s { published_failed_count = s.published_failed_count + k }

-- What `PublishInLoop` does with the connection of a pointer, which is in the heap
pub write_to : Command → ℕ → Option Conn → Producer → Answer
write_to c p none s = (false, s, [])
write_to c p (some o) s =
    let (rc, n, es) = write_publish_command s.high_water_mark c o.nsq in
    (
      rc,
      add_failed rc (length c.body) (record s {
        client = record s.client { heap = store p n s.client.heap };
        published_count = s.published_count + length c.body;
      }),
      (p, es) ∷ [],
    )

abbrev pub to_next : Command → Option ℕ × Producer → Answer
to_next c (none, s) = (false, s, [])
to_next c (some p, s) = write_to c p (deref p s.client.heap) s

-- `PublishInLoop`
pub publish_in_loop : Command → Producer → Answer
publish_in_loop c s = to_next c (get_next_conn s)

-- `Publish` of a command, on the loop's thread
pub publish_command : Command → Producer → Answer
publish_command c s =
    let done = publish_in_loop c s in
    if s.client.closing
    then (false, s, [])
    else if NsqClient.is_empty s.client.conns
    then (false, s, [])
    else done

-- `Publish`
pub publish : List ℕ → List ℕ → Producer → Answer
publish topic msg s = publish_command (NsqCommand.publish_message topic msg NsqCommand.new) s

-- `MultiPublish`
pub multi_publish : List ℕ → List (List ℕ) → Producer → Answer
multi_publish topic [] s = (true, s, [])
multi_publish topic (msg ∷ []) s = publish topic msg s
multi_publish topic (msg ∷ msgs) s =
    publish_command (NsqCommand.multi_publish topic (msg ∷ msgs) NsqCommand.new) s

abbrev pub binary_to : List ℕ → Option ℕ × Producer → Answer
binary_to bytes (none, s) = (false, s, [])
binary_to bytes (some p, s) =
    (true, record s { published_count = s.published_count + 1 }, (p, NsqConn.sends bytes ∷ []) ∷ [])

-- `PublishBinaryCommand`
pub publish_binary_command : List ℕ → Producer → Answer
publish_binary_command bytes s =
    if s.client.closing then (false, s, []) else binary_to bytes (get_next_conn s)

-- `OnReady`: whether the ready callback is called
pub on_ready : Producer → Bool
on_ready s = if s.ready_fn then length s.client.conns == 1 else false

abbrev pub count_of : Option Command → ℕ
count_of none = 1
count_of (some c) = length c.body

-- `OnPublishResponse`
pub on_publish_response : Option Command → Bool → Producer → Producer
on_publish_response c ok s =
    if ok
    then record s { published_ok_count = s.published_ok_count + count_of c }
    else record s { published_failed_count = s.published_failed_count + count_of c }

-- The effects of a connection, as far as they call the producer back
pub hear : List Effect → Producer → Producer
hear [] s = s
hear (tells_publish_response c ok ∷ es) s = hear es (on_publish_response c ok s)
hear (_ ∷ es) s = hear es s

-- `SetReadyCallback` and `SetHighWaterMarkCallback`
pub set_ready_callback : Producer → Producer
set_ready_callback s = record s { ready_fn = true }

pub set_high_water_mark_callback : ℕ → Producer → Producer
set_high_water_mark_callback mark s = record s { high_water_mark = mark }

-- `PrintStats`
pub print_stats : Producer → Producer
print_stats s = record s { published_count = 0; published_ok_count = 0; published_failed_count = 0 }
