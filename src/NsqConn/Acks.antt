-- ===== src/NsqConn/Acks.antt =====
-- apps/evnsq/nsq_conn.cc: the publish commands that wait for an answer, and their counters.
use evpp.Base.{
  ℕ, ◌+◌, ◌≤◌, ◌<◌, ◌≡◌, refl, ap, Bool, true, false, List, [], ◌∷◌, ◌++◌, some, leb, length,
  length-append, arith, inl, inr, Bool-cases,
}
use evpp.Base.Dictionary.{codes, is_same}
use evpp.NsqCommand.{Command, inc_retried_time}
use evpp.NsqConn.{
  NsqConn, Effect, tells_publish_response, write_command, reconnect, push_wait_ack_command,
  pop_wait_ack_command, write_publish_command, retry, publish_failed, publish_ok,
  on_publish_response,
}

-- The producer publishes; nsqd answers a command that waits; the connection is made again.
pub data Event : Type 0 where
  publishes : Command → Event
  responds : List ℕ → Event
  reconnects : Event

abbrev pub responded : ℕ → List ℕ → List Command → NsqConn → NsqConn
responded mark d [] n = n
responded mark d (c ∷ cs) n = (on_publish_response mark d n).0

abbrev pub step : ℕ → Event → NsqConn → NsqConn
step mark (publishes c) n = (write_publish_command mark c n).1
step mark (responds d) n = responded mark d n.wait_ack n
step mark reconnects n = (reconnect n).0

abbrev pub run : ℕ → List Event → NsqConn → NsqConn
run mark [] n = n
run mark (e ∷ es) n = run mark es (step mark e n)

-- Each command that was published is counted as answered with OK, as failed, or waits; and no
-- more wait than the high-water mark.
pub record IsBalanced (mark : ℕ) (n : NsqConn) : Type 0 where
  pub counted :
      n.published_count ≡ n.published_ok_count + n.published_failed_count + length n.wait_ack
  pub bounded : length n.wait_ack ≤ mark

not_full : (m k : ℕ) → leb m k ≡ false → k < m
not_full m k h = ground arith

pub write-IsBalanced :
    (mark : ℕ) (c : Command) (n : NsqConn)
    → IsBalanced mark n
    → IsBalanced mark (write_publish_command mark c n).1
unfolding write_publish_command push_wait_ack_command
write-IsBalanced mark c n b = elim (Bool-cases (leb mark (length n.wait_ack))) [
  | inl e ↦ rw e b
  | inr e ↦ rw e (record {
    counted = omega (arith, b.counted, length-append n.wait_ack (c ∷ []));
    bounded = omega (arith, not_full mark (length n.wait_ack) e, length-append n.wait_ack (c ∷ []));
  })
]

-- A failed command, taken out of those that wait: its retry is never refused.
retry-IsBalanced :
    (mark : ℕ) (c : Command) (n : NsqConn)
    → IsBalanced mark n
    → length n.wait_ack < mark
    → IsBalanced mark (retry mark c n).0
unfolding retry
retry-IsBalanced mark c n b room = elim (Bool-cases (leb 2 c.retried_time)) [
  | inl e ↦ rw e b
  | inr e ↦ rw e (write-IsBalanced mark (inc_retried_time c) n b)
]

popped :
    (n : NsqConn) (c : Command) (cs : List Command)
    → n.wait_ack ≡ c ∷ cs
    → pop_wait_ack_command n ≡ (some c, record n { wait_ack = cs })
unfolding pop_wait_ack_command
popped n c cs e = rw e refl

failed-IsBalanced :
    (mark : ℕ) (c : Command) (cs : List Command) (n : NsqConn)
    → n.wait_ack ≡ c ∷ cs
    → IsBalanced mark n
    → IsBalanced mark
        (record n { wait_ack = cs; published_failed_count = n.published_failed_count + 1 })
failed-IsBalanced mark c cs n e b = record {
  counted = omega (arith, b.counted, ap length e);
  bounded = omega (arith, b.bounded, ap length e);
}

pub response-IsBalanced :
    (mark : ℕ) (d : List ℕ) (c : Command) (cs : List Command) (n : NsqConn)
    → n.wait_ack ≡ c ∷ cs
    → IsBalanced mark n
    → IsBalanced mark (on_publish_response mark d n).0
unfolding on_publish_response publish_ok publish_failed
response-IsBalanced mark d c cs n e b = elim (Bool-cases (is_same d (codes "OK"))) [
  | inl ok ↦ rw ok rw (popped n c cs e) (record {
    counted = omega (arith, b.counted, ap length e);
    bounded = omega (arith, b.bounded, ap length e);
  })
  | inr no_ok ↦ rw no_ok rw (popped n c cs e) (
      retry-IsBalanced mark c
        (record n { wait_ack = cs; published_failed_count = n.published_failed_count + 1 })
        (failed-IsBalanced mark c cs n e b) (omega (arith, b.bounded, ap length e)))
]

responded-IsBalanced :
    (mark : ℕ) (d : List ℕ) (ws : List Command) (n : NsqConn)
    → n.wait_ack ≡ ws
    → IsBalanced mark n
    → IsBalanced mark (responded mark d ws n)
responded-IsBalanced mark d [] n e b = b
responded-IsBalanced mark d (c ∷ cs) n e b = response-IsBalanced mark d c cs n e b

pub step-IsBalanced :
    (mark : ℕ) (e : Event) (n : NsqConn) → IsBalanced mark n → IsBalanced mark (step mark e n)
unfolding reconnect
step-IsBalanced mark (publishes c) n b = write-IsBalanced mark c n b
step-IsBalanced mark (responds d) n b = responded-IsBalanced mark d n.wait_ack n refl b
step-IsBalanced mark reconnects n b = record {
  counted = omega (arith, b.counted);
  bounded = omega arith;
}

-- Whatever is published, answered and made again in whatever order, each command that was published
-- is counted as answered with OK, as failed, or waits, and no more wait than the high-water mark,
-- as long as nsqd answers only when a command waits.
pub run-IsBalanced :
    (mark : ℕ) (es : List Event) (n : NsqConn) → IsBalanced mark n → IsBalanced mark (run mark es n)
run-IsBalanced mark [] n b = b
run-IsBalanced mark (e ∷ es) n b =
    run-IsBalanced mark es (step mark e n) (step-IsBalanced mark e n b)

retry-sent :
    (mark : ℕ) (c : Command) (n : NsqConn)
    → leb 2 c.retried_time ≡ false
    → length n.wait_ack < mark
    → retry mark c n
      ≡ (push_wait_ack_command (inc_retried_time c) n, write_command (inc_retried_time c) ∷ [])
unfolding retry write_publish_command
retry-sent mark c n e room = rw e rw (room_left mark (length n.wait_ack) room) refl
  where
    room_left : (m k : ℕ) → k < m → leb m k ≡ false
    room_left m k h = ground arith

retry-told :
    (mark : ℕ) (c : Command) (n : NsqConn)
    → leb 2 c.retried_time ≡ true
    → retry mark c n ≡ (n, tells_publish_response (some c) false ∷ [])
unfolding retry
retry-told mark c n last = rw last refl

-- What an answer does about a command, and what waits then: by whether it is OK, and whether the
-- command has been sent three times.
abbrev pub reaction : Bool → Bool → Command → List Effect
reaction true last c = tells_publish_response (some c) true ∷ []
reaction false true c = tells_publish_response (some c) false ∷ []
reaction false false c = write_command (inc_retried_time c) ∷ []

abbrev pub waiting : Bool → Bool → Command → List Command → List Command
waiting true last c cs = cs
waiting false true c cs = cs
waiting false false c cs = cs ++ inc_retried_time c ∷ []

retry-reaction :
    (mark : ℕ) (last : Bool) (c : Command) (cs : List Command) (n : NsqConn)
    → leb 2 c.retried_time ≡ last
    → length n.wait_ack < mark
    → n.wait_ack ≡ cs
    → ((retry mark c n).1 ≡ reaction false last c)
      × ((retry mark c n).0.wait_ack ≡ waiting false last c cs)
unfolding push_wait_ack_command
retry-reaction mark true c cs n last room w = rw (retry-told mark c n last) (refl, w)
retry-reaction mark false c cs n last room w =
    rw (retry-sent mark c n last room) (refl, ap (λ ws. ws ++ inc_retried_time c ∷ []) w)

-- An answer is for the command that has waited longest. With OK the callback hears of its success;
-- if not, it is sent again, at the end of those that wait and whatever the high-water mark is,
-- until it has been sent three times, and then the callback hears of its failure.
pub on_publish_response_lem :
    (mark : ℕ) (d : List ℕ) (c : Command) (cs : List Command) (n : NsqConn)
    → n.wait_ack ≡ c ∷ cs
    → IsBalanced mark n
    → let ok : Bool = is_same d (codes "OK") in
      ((on_publish_response mark d n).1 ≡ reaction ok (leb 2 c.retried_time) c)
      × ((on_publish_response mark d n).0.wait_ack ≡ waiting ok (leb 2 c.retried_time) c cs)
unfolding on_publish_response publish_ok publish_failed
on_publish_response_lem mark d c cs n e b = elim (Bool-cases (is_same d (codes "OK"))) [
  | inl ok ↦ rw ok rw (popped n c cs e) (refl, refl)
  | inr no_ok ↦ rw no_ok rw (popped n c cs e) (
      retry-reaction mark (leb 2 c.retried_time) c cs
        (record n { wait_ack = cs; published_failed_count = n.published_failed_count + 1 }) refl
        (omega (arith, b.bounded, ap length e)) refl)
]
