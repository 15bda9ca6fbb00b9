-- ===== src/NsqClient/Heap.antt =====
-- apps/evnsq/client.cc: the connections of a client and the commands that wait at them, whatever the
-- connections tell.
use evpp.Base.{
  ℕ, zero, suc, ◌+◌, ◌≡◌, refl, ap, sym, ◌∙◌, subst, List, [], ◌∷◌, ◌++◌, Option, none, some,
  length, arith, All, append-All, Bool-cases, inl, inr,
}
use evpp.NsqClient.{
  on_closed, Client, ClientType, consumer, producer, Conn, deref, store, has, find, move_found,
  move_to_connecting_list, on_connected, on_status, on_connection, connect_to_nsqd,
}
use evpp.NsqCommand.{Command}
use evpp.NsqConn.{
  NsqConn, disconnected, connecting, identifying, authenticating, connected, subscribing, ready,
  disconnecting, subscribe,
}
use evpp.NsqConn
use evpp.NsqConn.Acks.{IsBalanced}
use mathlib.Core.Option.{some-injective}

-- The messages of the commands that wait
abbrev pub weight : List Command → ℕ
weight [] = 0
weight (c ∷ cs) = length c.body + weight cs

-- The messages that wait at some connection
abbrev pub flight : List Conn → ℕ
flight [] = 0
flight (c ∷ h) = weight c.nsq.wait_ack + flight h

abbrev pub weight_at : Option Conn → ℕ
weight_at none = 0
weight_at (some c) = weight c.nsq.wait_ack

abbrev pub Settled : ℕ → Conn → Type 0
Settled mark c = IsBalanced mark c.nsq

pub weight-append : (a b : List Command) → weight (a ++ b) ≡ weight a + weight b
weight-append [] b = omega arith
weight-append (c ∷ cs) b = omega (arith, weight-append cs b)

-- What a connection that has changed does to the sum
pub flight-store :
    (p : ℕ) (n : NsqConn) (c : Conn) (h : List Conn)
    → deref p h ≡ some c
    → flight (store p n h) + weight c.nsq.wait_ack ≡ flight h + weight n.wait_ack
unfolding deref store
flight-store zero n c [] e = cc
flight-store (suc p) n c [] e = cc
flight-store zero n c (d ∷ h) e = omega (arith, ap weight_at e)
flight-store (suc p) n c (d ∷ h) e = omega (arith, flight-store p n c h e)

pub store-Settled :
    (mark p : ℕ) (n : NsqConn) (h : List Conn)
    → IsBalanced mark n
    → All (Settled mark) h
    → All (Settled mark) (store p n h)
unfolding store
store-Settled mark p n [] b a = a
store-Settled mark zero n (d ∷ h) b (x, a) = (b, a)
store-Settled mark (suc p) n (d ∷ h) b (x, a) = (x, store-Settled mark p n h b a)

pub deref-Settled :
    (mark p : ℕ) (c : Conn) (h : List Conn)
    → deref p h ≡ some c
    → All (Settled mark) h
    → IsBalanced mark c.nsq
unfolding deref
deref-Settled mark p c [] e a = cc
deref-Settled mark zero c (d ∷ h) e (x, a) =
    subst (λ c. IsBalanced mark c.nsq) (some-injective d c e) x
deref-Settled mark (suc p) c (d ∷ h) e (x, a) = deref-Settled mark p c h e a

flight-append : (g h : List Conn) → flight (g ++ h) ≡ flight g + flight h
flight-append [] h = omega arith
flight-append (c ∷ g) h = omega (arith, flight-append g h)

-- The commands that wait at the connections of `m`: `f` messages
pub record Holds (mark f : ℕ) (m : Client) : Type 0 where
  pub settled : All (Settled mark) m.heap
  pub sum : flight m.heap ≡ f

-- Only the status of a connection changes.
store-Holds :
    (mark f p : ℕ) (st : NsqConn.Status) (c : Conn) (m : Client)
    → deref p m.heap ≡ some c
    → Holds mark f m
    → Holds mark f (record m { heap = store p (record c.nsq { status = st }) m.heap })
store-Holds mark f p st c m e h =
    let b : IsBalanced mark c.nsq = deref-Settled mark p c m.heap e h.settled in
    let n : NsqConn = record c.nsq { status = st } in
    record {
      settled =
          store-Settled mark p n m.heap (record { counted = b.counted; bounded = b.bounded })
            h.settled;
      sum = omega (arith, h.sum, flight-store p n c m.heap e);
    }

heap-Holds : (mark f : ℕ) (m m' : Client) → m.heap ≡ m'.heap → Holds mark f m → Holds mark f m'
heap-Holds mark f m m' e h = record {
  settled = subst (All (Settled mark)) e h.settled;
  sum = ap flight (sym e) ∙ h.sum;
}

heap-move_found :
    (p : ℕ) (addr : List ℕ) (o : Option (Option ℕ)) (m : Client)
    → m.heap ≡ (move_found p addr o m).heap
unfolding move_found
heap-move_found p addr (some (some q)) m = refl
heap-move_found p addr (some none) m = elim (Bool-cases (has p m.conns)) [
  | inl e ↦ rw e refl
  | inr e ↦ rw e refl
]
heap-move_found p addr none m = elim (Bool-cases (has p m.conns)) [
  | inl e ↦ rw e refl
  | inr e ↦ rw e refl
]

on_connected-Holds :
    (mark f : ℕ) (t : ClientType) (p : ℕ) (c : Conn) (m : Client)
    → deref p m.heap ≡ some c
    → Holds mark f m
    → Holds mark f (on_connected t p c m).0
unfolding on_connected subscribe
on_connected-Holds mark f consumer p c m e h =
    heap-Holds mark f _ _ refl (store-Holds mark f p subscribing c m e h)
on_connected-Holds mark f producer p c m e h =
    heap-Holds mark f _ _ refl (store-Holds mark f p ready c m e h)

on_status-Holds :
    (mark f : ℕ) (st : NsqConn.Status) (p : ℕ) (c : Conn) (m : Client)
    → deref p m.heap ≡ some c
    → Holds mark f m
    → Holds mark f (on_status st p c m).0
unfolding on_status move_to_connecting_list on_closed
on_status-Holds mark f connecting p c m e h =
    heap-Holds mark f _ _ (heap-move_found p c.addr (find c.addr m.connecting_conns) m) h
on_status-Holds mark f connected p c m e h = on_connected-Holds mark f m.type p c m e h
on_status-Holds mark f ready p c m e h = heap-Holds mark f _ _ refl h
on_status-Holds mark f disconnected p c m e h = heap-Holds mark f _ _ refl h
on_status-Holds mark f identifying p c m e h = heap-Holds mark f _ _ refl h
on_status-Holds mark f authenticating p c m e h = heap-Holds mark f _ _ refl h
on_status-Holds mark f subscribing p c m e h = heap-Holds mark f _ _ refl h
on_status-Holds mark f disconnecting p c m e h = heap-Holds mark f _ _ refl h

on_connection-Holds :
    (mark f p : ℕ) (o : Option Conn) (m : Client)
    → deref p m.heap ≡ o
    → Holds mark f m
    → Holds mark f (on_connection p o m).0
unfolding on_connection
on_connection-Holds mark f p none m e h = h
on_connection-Holds mark f p (some c) m e h = on_status-Holds mark f c.nsq.status p c m e h

-- A connection has got a status and tells the client.
abbrev pub notify : ℕ → Client → Client
notify p m = (on_connection p (deref p m.heap) m).0

abbrev pub told : ℕ → NsqConn.Status → Option Conn → Client → Client
told p st none m = m
told p st (some c) m = notify p (record m { heap = store p (record c.nsq { status = st }) m.heap })

pub told-Holds :
    (mark f p : ℕ) (st : NsqConn.Status) (o : Option Conn) (m : Client)
    → deref p m.heap ≡ o
    → Holds mark f m
    → Holds mark f (told p st o m)
told-Holds mark f p st none m e h = h
told-Holds mark f p st (some c) m e h =
    on_connection-Holds mark f p _ _ refl (store-Holds mark f p st c m e h)

pub connect_to_nsqd-Holds :
    (mark f : ℕ) (addr : List ℕ) (m : Client)
    → Holds mark f m
    → Holds mark f (connect_to_nsqd addr m).0
unfolding connect_to_nsqd NsqConn.connect NsqConn.new
connect_to_nsqd-Holds mark f addr m h =
    let c : Conn = record { addr = addr; nsq = (NsqConn.connect NsqConn.new).0 } in
    record {
      settled =
          append-All (Settled mark) m.heap (c ∷ []) h.settled
            (record { counted = refl; bounded = omega arith }, _);
      sum = omega (arith, flight-append m.heap (c ∷ []), h.sum);
    }
