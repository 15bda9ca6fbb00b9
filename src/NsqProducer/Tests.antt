-- ===== src/NsqProducer/Tests.antt =====
-- The theorem about apps/evnsq/producer.cc at a producer whose connection is made again.
use evpp.Base.{true, ℕ, ◌+◌, List, [], ◌∷◌, arith}
use evpp.Base.Dictionary.{codes}
use evpp.NsqCommand.{Command}
use evpp.NsqConn.{connected}
use evpp.NsqClient
use evpp.NsqProducer.{new}
use evpp.NsqProducer.Changes.{Counts}
use evpp.NsqProducer.Counting.{
  Event, publishes, publishes_binary, answers, reconnects, tells, connects_to, unheard_all, run,
  run-Counts,
}

abbrev messages : List (List ℕ) → Command
messages body = record {
  publish = true;
  retried_time = 0;
  name = codes "MPUB";
  params = codes "news" ∷ [];
  body = body;
}

abbrev events : List Event
events =
    connects_to (codes "a:4150")
    ∷ tells 0 connected
    ∷ publishes (messages (codes "x" ∷ codes "y" ∷ []))
    ∷ publishes (messages (codes "z" ∷ []))
    ∷ publishes_binary (codes "PUB news")
    ∷ answers 0 (codes "OK")
    ∷ reconnects 0
    ∷ []

new-Counts : Counts 0 new
unfolding new NsqClient.new
new-Counts = record { settled = _; counted = omega arith }

run-Counts_example : Counts (0 + unheard_all events new) (run events new)
run-Counts_example = run-Counts events 0 new new-Counts
