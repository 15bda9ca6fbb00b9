-- ===== src/NsqProducer/Counting.antt =====
-- apps/evnsq/producer.cc and nsq_conn.cc together: the messages that a producer has published.
use evpp.Base.{ℕ, ◌+◌, ◌≡◌, refl, List, [], ◌∷◌, arith, subst}
use evpp.NsqClient.{deref, connect_to_nsqd}
use evpp.NsqClient.Heap.{flight, weight_at, told, told-Holds, connect_to_nsqd-Holds}
use evpp.NsqCommand.{Command}
use evpp.NsqConn.{NsqConn, Effect, reconnect, push_wait_ack_command, write_publish_command}
use evpp.NsqConn
use evpp.NsqProducer.{Producer, publish_command, publish_binary_command}
use evpp.NsqProducer.Changes.{
  answered_at, reconnected, Counts, one, publish-Counts, binary-Counts, answered_at-Counts,
  reconnected-Counts, client-Counts, more-Counts,
}

pub data Event : Type 0 where
  publishes : Command → Event
  publishes_binary : List ℕ → Event
  answers : ℕ → List ℕ → Event
  reconnects : ℕ → Event
  tells : ℕ → NsqConn.Status → Event
  connects_to : List ℕ → Event

abbrev pub step : Event → Producer → Producer
step (publishes c) s = (publish_command c s).1
step (publishes_binary bytes) s = (publish_binary_command bytes s).1
step (answers p d) s = answered_at p d (deref p s.client.heap) s
step (reconnects p) s = reconnected p (deref p s.client.heap) s
step (tells p st) s = record s { client = told p st (deref p s.client.heap) s.client }
step (connects_to addr) s = record s { client = (connect_to_nsqd addr s.client).0 }

abbrev pub run : List Event → Producer → Producer
run [] s = s
run (e ∷ es) s = run es (step e s)

-- The messages of which the producer does not hear: the one that it counts for a binary command that
-- it has sent, and those that a connection discards because it is made again
abbrev pub unheard : Event → Producer → ℕ
unheard (publishes_binary bytes) s = one (publish_binary_command bytes s).0
unheard (reconnects p) s = weight_at (deref p s.client.heap)
unheard _ s = 0

abbrev pub unheard_all : List Event → Producer → ℕ
unheard_all [] s = 0
unheard_all (e ∷ es) s = unheard e s + unheard_all es (step e s)

step-Counts : (e : Event) (k : ℕ) (s : Producer) → Counts k s → Counts (k + unheard e s) (step e s)
step-Counts (publishes c) k s h = more-Counts k _ (publish-Counts k c s h)
step-Counts (publishes_binary bytes) k s h = binary-Counts k bytes s h
step-Counts (answers p d) k s h =
    more-Counts k _ (answered_at-Counts k p d (deref p s.client.heap) s refl h)
step-Counts (reconnects p) k s h = reconnected-Counts k p (deref p s.client.heap) s refl h
step-Counts (tells p st) k s h =
    client-Counts k s _ h (
      told-Holds s.high_water_mark (flight s.client.heap) p st (deref p s.client.heap) s.client
        refl)
step-Counts (connects_to addr) k s h =
    client-Counts k s _ h
      (connect_to_nsqd-Holds s.high_water_mark (flight s.client.heap) addr s.client)

-- Each message that the producer has counted as published is counted once as answered with OK or as
-- failed, or its command waits at a connection, or the producer has not heard of it: it went out as a
-- binary command, for which nothing waits, or it was discarded when its connection was made again.
-- That holds whatever is published, binary commands included, and answered and told by the connections
-- in whatever order, as long as each answer comes while a command waits at its connection: an OK that
-- comes while none waits would be counted as one more.
pub run-Counts :
    (es : List Event) (k : ℕ) (s : Producer) → Counts k s → Counts (k + unheard_all es s) (run es s)
run-Counts [] k s h = more-Counts k s h
run-Counts (e ∷ es) k s h =
    subst (λ j. Counts j (run es (step e s)))
      (sum_assoc k (unheard e s) (unheard_all es (step e s)))
      (run-Counts es (k + unheard e s) (step e s) (step-Counts e k s h))
  where
    sum_assoc : (a b c : ℕ) → a + b + c ≡ a + (b + c)
    sum_assoc a b c = omega arith
