-- ===== src/NsqConn/Tests.antt =====
-- Each theorem about apps/evnsq/nsq_conn.cc at a producer of its own.
use evpp.Base.{ℕ, true, false, List, [], ◌∷◌, none, some, arith}
use evpp.Base.Dictionary.{codes}
use evpp.NsqCommand.{Command}
use evpp.NsqConn.{NsqConn, ready}
use evpp.NsqConn.Receiving.{Nsqd}
use evpp.NsqConn.Acks.{IsBalanced, publishes, responds, reconnects, run, run-IsBalanced}

abbrev message : ℕ → Command
message k = record {
  publish = true;
  retried_time = k;
  name = codes "PUB";
  params = codes "news" ∷ [];
  body = codes "hello" ∷ [];
}

abbrev producer : NsqConn
producer = record {
  status = ready;
  wait_ack = message 1 ∷ message 0 ∷ [];
  published_count = 5;
  published_ok_count = 2;
  published_failed_count = 1;
}

producer-IsBalanced : IsBalanced 2 producer
producer-IsBalanced = record { counted = omega arith; bounded = omega arith }

run-IsBalanced_example : IsBalanced 2 (
    run 2
      (responds (codes "OK") ∷ responds (codes "E_BAD") ∷ publishes (message 0) ∷ reconnects ∷ [])
      producer)
run-IsBalanced_example =
    run-IsBalanced 2
      (responds (codes "OK") ∷ responds (codes "E_BAD") ∷ publishes (message 0) ∷ reconnects ∷ [])
      producer producer-IsBalanced

abbrev nsqd : Nsqd
nsqd = record {
  feature_negotiation = true;
  options = codes "{}";
  auth_secret = [];
  is_producer = true;
  high_water_mark = 2;
  auth_required = λ d. some false;
  is_json = λ d. true;
  consumed = none;
  told = λ n. (n, []);
}

-- The answer OK to a publish, and the start of the next frame
abbrev received : List ℕ
received = 0 ∷ 0 ∷ 0 ∷ 6 ∷ 0 ∷ 0 ∷ 0 ∷ 0 ∷ b'O' ∷ b'K' ∷ 0 ∷ 0 ∷ []
