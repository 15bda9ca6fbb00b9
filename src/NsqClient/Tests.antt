-- ===== src/NsqClient/Tests.antt =====
-- The theorem about apps/evnsq/client.cc at a producer that lookupd tells of an nsqd again and again.
use evpp.Base.{List, [], ◌∷◌, arith}
use evpp.Base.Dictionary.{codes}
use evpp.NsqClient.{Client, producer, new}
use evpp.NsqClient.Addresses.{Event, looks_up, tells, run, run-IsOnce}
use evpp.NsqClient.Once.{IsOnce}
use evpp.NsqConn.{connecting, connected, disconnected}

abbrev client : Client
client = new producer

client-IsOnce : IsOnce client
unfolding new
client-IsOnce = record { once = λ a. omega arith; valid = _; linked = _ }

abbrev events : List Event
events =
    looks_up (codes "a:4150" ∷ codes "b:4150" ∷ codes "a:4150" ∷ [])
    ∷ tells 0 connected
    ∷ looks_up (codes "a:4150" ∷ [])
    ∷ tells 0 connecting
    ∷ tells 0 connected
    ∷ tells 1 disconnected
    ∷ looks_up (codes "b:4150" ∷ [])
    ∷ []

run-IsOnce_example : IsOnce (run events client)
run-IsOnce_example = run-IsOnce events client client-IsOnce
