-- ===== src/NsqProducer/Changes.antt =====
-- apps/evnsq/producer.cc and nsq_conn.cc together: what a publish and an answer do to the counters.
use evpp.Base.{
  ℕ, ◌+◌, ◌≡◌, refl, ap, sym, Bool, true, false, List, [], ◌∷◌, Option, none, some, if◌then◌else◌,
  leb, length, arith, inl, inr, Bool-cases, All, subst,
}
use evpp.Base.Dictionary.{codes, is_same}
use evpp.NsqClient.{Client, Conn, deref, store, on_connection, connect_to_nsqd}
use evpp.NsqClient.Heap.{
  weight, flight, weight_at, weight-append, flight-store, Settled, store-Settled, deref-Settled,
  Holds,
}
use evpp.NsqClient
use evpp.NsqCommand.{Command, inc_retried_time}
use evpp.NsqConn.{NsqConn, Effect, reconnect, push_wait_ack_command, write_publish_command}
use evpp.NsqConn
use evpp.NsqConn.Acks.{
  IsBalanced, reaction, waiting, on_publish_response_lem, write-IsBalanced, response-IsBalanced,
  step-IsBalanced,
}
use evpp.NsqConn.Acks
use evpp.NsqProducer.{
  Producer, Answer, get_next_conn, write_to, to_next, publish_in_loop, publish_command, binary_to,
  publish_binary_command, on_publish_response, hear,
}

-- `OnPublishResponse` of a connection where a command waits, and the callback
abbrev pub answered : ℕ → List ℕ → Conn → List Command → Producer → Producer
answered p d c [] s = s
answered p d c (w ∷ ws) s =
    let (n, es) = NsqConn.on_publish_response s.high_water_mark d c.nsq in
    hear es (record s { client = record s.client { heap = store p n s.client.heap } })

abbrev pub answered_at : ℕ → List ℕ → Option Conn → Producer → Producer
answered_at p d none s = s
answered_at p d (some c) s = answered p d c c.nsq.wait_ack s

-- `Reconnect` of a connection
abbrev pub reconnected : ℕ → Option Conn → Producer → Producer
reconnected p none s = s
reconnected p (some c) s = record s {
  client = record s.client { heap = store p (reconnect c.nsq).0 s.client.heap };
}

-- After `k` messages were discarded, each message is counted with an answer, or waits.
pub record Counts (k : ℕ) (s : Producer) : Type 0 where
  pub settled : All (Settled s.high_water_mark) s.client.heap
  pub counted :
      s.published_count ≡ s.published_ok_count + s.published_failed_count + flight s.client.heap + k

-- The producer with a connection that has changed
abbrev pub moved : ℕ → NsqConn → Producer → Producer
moved p n s = record s { client = record s.client { heap = store p n s.client.heap } }

moved-settled :
    (k p : ℕ) (n : NsqConn) (s : Producer)
    → IsBalanced s.high_water_mark n
    → Counts k s
    → All (Settled s.high_water_mark) (moved p n s).client.heap
moved-settled k p n s b h = store-Settled s.high_water_mark p n s.client.heap b h.settled

at-IsBalanced :
    (k p : ℕ) (c : Conn) (s : Producer)
    → deref p s.client.heap ≡ some c
    → Counts k s
    → IsBalanced s.high_water_mark c.nsq
at-IsBalanced k p c s e h = deref-Settled s.high_water_mark p c s.client.heap e h.settled

pub pushed :
    (mark : ℕ) (c : Command) (n : NsqConn)
    → leb mark (length n.wait_ack) ≡ false
    → (write_publish_command mark c n).1 ≡ push_wait_ack_command c n
unfolding write_publish_command
pushed mark c n t = rw t refl

pushed-IsBalanced :
    (mark : ℕ) (c : Command) (n : NsqConn)
    → leb mark (length n.wait_ack) ≡ false
    → IsBalanced mark n
    → IsBalanced mark (push_wait_ack_command c n)
pushed-IsBalanced mark c n t b =
    subst (IsBalanced mark) (pushed mark c n t) (write-IsBalanced mark c n b)

written-Counts :
    (k : ℕ) (c : Command) (p : ℕ) (o : Conn) (s : Producer)
    → deref p s.client.heap ≡ some o
    → Counts k s
    → Counts k (write_to c p (some o) s).1
unfolding write_to write_publish_command push_wait_ack_command
written-Counts k c p o s e h = elim (Bool-cases (leb s.high_water_mark (length o.nsq.wait_ack))) [
  | inl t ↦ rw t (record {
    settled = moved-settled k p o.nsq s (at-IsBalanced k p o s e h) h;
    counted = omega (arith, h.counted, flight-store p o.nsq o s.client.heap e);
  })
  | inr t ↦ rw t (record {
    settled =
        moved-settled k p (push_wait_ack_command c o.nsq) s
          (pushed-IsBalanced s.high_water_mark c o.nsq t (at-IsBalanced k p o s e h)) h;
    counted = omega (
      arith,
      h.counted,
      flight-store p (push_wait_ack_command c o.nsq) o s.client.heap e,
      weight-append o.nsq.wait_ack (c ∷ []),
    );
  })
]

at-Counts :
    (k : ℕ) (c : Command) (p : ℕ) (o : Option Conn) (s : Producer)
    → deref p s.client.heap ≡ o
    → Counts k s
    → Counts k (write_to c p o s).1
unfolding write_to
at-Counts k c p none s e h = h
at-Counts k c p (some o) s e h = written-Counts k c p o s e h

to_next-Counts :
    (k : ℕ) (c : Command) (o : Option ℕ) (s : Producer) → Counts k s → Counts k (to_next c (o, s)).1
to_next-Counts k c none s h = h
to_next-Counts k c (some p) s h = at-Counts k c p (deref p s.client.heap) s refl h

-- Each clause leaves the counters and the heap as they are.
next-Counts : (k : ℕ) (s : Producer) → Counts k s → Counts k (get_next_conn s).1
unfolding get_next_conn
next-Counts k s h = elim (Bool-cases (NsqClient.is_empty s.client.conns)) [
  | inl e ↦ rw e h
  | inr e ↦ rw e (record { settled = h.settled; counted = h.counted })
]

-- A message that goes out without a wait for an answer
abbrev pub one : Bool → ℕ
one true = 1
one false = 0

binary_to-Counts :
    (k : ℕ) (bytes : List ℕ) (o : Option ℕ) (s : Producer)
    → Counts k s
    → Counts (k + one (binary_to bytes (o, s)).0) (binary_to bytes (o, s)).1
binary_to-Counts k bytes none s h = record {
  settled = h.settled;
  counted = omega (arith, h.counted);
}
binary_to-Counts k bytes (some p) s h = record {
  settled = h.settled;
  counted = omega (arith, h.counted);
}

closing-Counts :
    (k : ℕ) (b : Bool) (s : Producer) (x : Answer)
    → Counts k s
    → Counts (k + one x.0) x.1
    → Counts (k + one (if b then (false, s, []) else x).0) (if b then (false, s, []) else x).1
closing-Counts k true s x h f = record { settled = h.settled; counted = omega (arith, h.counted) }
closing-Counts k false s x h f = f

pub binary-Counts :
    (k : ℕ) (bytes : List ℕ) (s : Producer)
    → Counts k s
    → Counts (k + one (publish_binary_command bytes s).0) (publish_binary_command bytes s).1
unfolding publish_binary_command
binary-Counts k bytes s h =
    closing-Counts k s.client.closing s _ h
      (binary_to-Counts k bytes (get_next_conn s).0 (get_next_conn s).1 (next-Counts k s h))

pub if-Counts :
    {k : ℕ} (b : Bool) (x y : Answer)
    → Counts k x.1
    → Counts k y.1
    → Counts k (if b then x else y).1
if-Counts true x y f g = f
if-Counts false x y f g = g

pub publish-Counts :
    (k : ℕ) (c : Command) (s : Producer) → Counts k s → Counts k (publish_command c s).1
unfolding publish_command publish_in_loop
publish-Counts k c s h = if-Counts s.client.closing _ _ h (
    if-Counts (NsqClient.is_empty s.client.conns) _ _ h
      (to_next-Counts k c (get_next_conn s).0 (get_next_conn s).1 (next-Counts k s h)))

-- As much waits at the connection as before.
moved-Counts :
    (k p : ℕ) (c : Conn) (n : NsqConn) (s : Producer)
    → deref p s.client.heap ≡ some c
    → weight n.wait_ack ≡ weight c.nsq.wait_ack
    → IsBalanced s.high_water_mark n
    → Counts k s
    → Counts k (record s { client = record s.client { heap = store p n s.client.heap } })
moved-Counts k p c n s e same b h = record {
  settled = moved-settled k p n s b h;
  counted = omega (arith, h.counted, flight-store p n c s.client.heap e, same);
}

heard-again : (w : Command) (s : Producer) → hear (reaction false false w) s ≡ s
unfolding hear
heard-again w s = refl

-- An answer to the command `w`, in front of `ws`
heard-Counts :
    (ok last : Bool) (k p : ℕ) (w : Command) (ws : List Command) (c : Conn) (n : NsqConn)
    (es : List Effect) (s : Producer)
    → deref p s.client.heap ≡ some c
    → c.nsq.wait_ack ≡ w ∷ ws
    → (es ≡ reaction ok last w) × (n.wait_ack ≡ waiting ok last w ws)
    → IsBalanced s.high_water_mark n
    → Counts k s
    → Counts k (hear es (moved p n s))
unfolding hear on_publish_response inc_retried_time
heard-Counts true last k p w ws c n es s e f (r, q) b h = rw r (record {
  settled = moved-settled k p n s b h;
  counted = omega (arith, h.counted, flight-store p n c s.client.heap e, ap weight f, ap weight q);
})
heard-Counts false true k p w ws c n es s e f (r, q) b h = rw r (record {
  settled = moved-settled k p n s b h;
  counted = omega (arith, h.counted, flight-store p n c s.client.heap e, ap weight f, ap weight q);
})
heard-Counts false false k p w ws c n es s e f (r, q) b h = rw r (
    subst (Counts k) (sym (heard-again w (moved p n s))) (
      moved-Counts k p c n s e
        (omega (arith, ap weight f, ap weight q, weight-append ws (inc_retried_time w ∷ []))) b h))

answered-Counts :
    (k p : ℕ) (d : List ℕ) (c : Conn) (ws : List Command) (s : Producer)
    → deref p s.client.heap ≡ some c
    → c.nsq.wait_ack ≡ ws
    → Counts k s
    → Counts k (answered p d c ws s)
answered-Counts k p d c [] s e f h = h
answered-Counts k p d c (w ∷ ws) s e f h =
    let b : IsBalanced s.high_water_mark c.nsq = at-IsBalanced k p c s e h in
    let mark : ℕ = s.high_water_mark in
    heard-Counts (is_same d (codes "OK")) (leb 2 w.retried_time) k p w ws c
      (NsqConn.on_publish_response mark d c.nsq).0 (NsqConn.on_publish_response mark d c.nsq).1 s e
      f (on_publish_response_lem mark d w ws c.nsq f b) (response-IsBalanced mark d w ws c.nsq f b)
      h

pub answered_at-Counts :
    (k p : ℕ) (d : List ℕ) (o : Option Conn) (s : Producer)
    → deref p s.client.heap ≡ o
    → Counts k s
    → Counts k (answered_at p d o s)
answered_at-Counts k p d none s e h = h
answered_at-Counts k p d (some c) s e h = answered-Counts k p d c c.nsq.wait_ack s e refl h

pub reconnected-Counts :
    (k p : ℕ) (o : Option Conn) (s : Producer)
    → deref p s.client.heap ≡ o
    → Counts k s
    → Counts (k + weight_at o) (reconnected p o s)
unfolding reconnect
reconnected-Counts k p none s e h = record {
  settled = h.settled;
  counted = omega (arith, h.counted);
}
reconnected-Counts k p (some c) s e h = record {
  settled =
      moved-settled k p (reconnect c.nsq).0 s
        (step-IsBalanced s.high_water_mark Acks.reconnects c.nsq (at-IsBalanced k p c s e h)) h;
  counted = omega (arith, h.counted, flight-store p (reconnect c.nsq).0 c s.client.heap e);
}

-- The client changes, and no command of it
pub client-Counts :
    (k : ℕ) (s : Producer) (m : Client)
    → Counts k s
    → (Holds s.high_water_mark (flight s.client.heap) s.client
        → Holds s.high_water_mark (flight s.client.heap) m)
    → Counts (k + 0) (record s { client = m })
client-Counts k s m h f =
    let g : Holds s.high_water_mark (flight s.client.heap) m =
      f (record { settled = h.settled; sum = refl }) in
    record { settled = g.settled; counted = omega (arith, h.counted, g.sum) }

pub more-Counts : (k : ℕ) (s : Producer) → Counts k s → Counts (k + 0) s
more-Counts k s h = record { settled = h.settled; counted = omega (arith, h.counted) }
