-- ===== src/NsqClient/Addresses.antt =====
-- apps/evnsq/client.cc: the lists of a client, whatever its connections tell and lookupd answers.
use mathlib.Core.Bool.{true≢false}
use mathlib.Core.Option.{none-ne-some, some-injective}
use evpp.Base.{
  ℕ, zero, suc, ◌+◌, ◌≤◌, ◌≡◌, refl, sym, ap, subst, Bool, true, false, ◌||◌, List, [], ◌∷◌, ◌++◌,
  Option, none, some, if◌then◌else◌, length, arith, All, append-All, Bool-cases, inl, inr,
}
use evpp.Base.Dictionary.{is_same, is_same-eq}
use evpp.NsqClient.{
  Client, ClientType, consumer, producer, Conn, move_to_connecting_list, on_connected, on_status,
  on_connection, handle_lookupd, deref, store, find, has, is_any, is_found, is_known_nsqd_address,
  connect_to_nsqd,
}
use evpp.NsqClient.Listing.{
  one_if, listed, addr_at, Linked, in_connecting-assign, in_connecting-none, in_conns-none,
  assign-append,
}
use evpp.NsqClient.Once.{
  IsOnce, Extends, append-Extends, store-Extends, deref-last, in_conns-Extends, extend-IsOnce,
  points_to, joined-IsOnce, on_closed-IsOnce, move-IsOnce,
}
use evpp.NsqConn.{
  NsqConn, disconnected, connecting, identifying, authenticating, connected, subscribing, ready,
  disconnecting, subscribe,
}
use evpp.NsqConn

abbrev with_nsq : NsqConn → Conn → Conn
with_nsq n c = record c { nsq = n }

deref-store :
    (p : ℕ) (n : NsqConn) (c : Conn) (h : List Conn)
    → deref p h ≡ some c
    → deref p (store p n h) ≡ some (record c { nsq = n })
unfolding deref store
deref-store p n c [] e = absurd (none-ne-some _ e)
deref-store zero n c (d ∷ h) e = ap (λ b. some (with_nsq n b)) (some-injective d c e)
deref-store (suc p) n c (d ∷ h) e = deref-store p n c h e

-- A connection becomes connected or ready while it is in the map, and tells that it connects while it
-- is in one of the lists: the client made it, and has not heard of its end.
abbrev pub may : NsqConn.Status → ℕ → Conn → Client → Bool
may connecting p c m = points_to p (find c.addr m.connecting_conns) || has p m.conns
may connected p c m = points_to p (find c.addr m.connecting_conns)
may ready p c m = points_to p (find c.addr m.connecting_conns)
may _ p c m = true

on_connected-IsOnce :
    (t : ClientType) (p : ℕ) (c : Conn) (m : Client)
    → deref p m.heap ≡ some c
    → points_to p (find c.addr m.connecting_conns) ≡ true
    → IsOnce m
    → IsOnce (on_connected t p c m).0
unfolding on_connected
on_connected-IsOnce consumer p c m e t i =
    let n : NsqConn = (subscribe m.topic m.channel c.nsq).0 in
    extend-IsOnce (store p n m.heap) m (store-Extends p n m.heap) i
on_connected-IsOnce producer p c m e t i =
    let n : NsqConn = record c.nsq { status = ready } in
    joined-IsOnce p (record c { nsq = n }) (record m { heap = store p n m.heap })
      (deref-store p n c m.heap e) t
      (extend-IsOnce (store p n m.heap) m (store-Extends p n m.heap) i)

on_status-IsOnce :
    (st : NsqConn.Status) (p : ℕ) (c : Conn) (m : Client)
    → deref p m.heap ≡ some c
    → may st p c m ≡ true
    → IsOnce m
    → IsOnce (on_status st p c m).0
unfolding on_status move_to_connecting_list
on_status-IsOnce connecting p c m e t i = move-IsOnce p c _ m e refl t i
on_status-IsOnce connected p c m e t i = on_connected-IsOnce m.type p c m e t i
on_status-IsOnce ready p c m e t i = joined-IsOnce p c m e t i
on_status-IsOnce disconnected p c m e t i = on_closed-IsOnce p c.addr m i
on_status-IsOnce identifying p c m e t i = on_closed-IsOnce p c.addr m i
on_status-IsOnce authenticating p c m e t i = on_closed-IsOnce p c.addr m i
on_status-IsOnce subscribing p c m e t i = on_closed-IsOnce p c.addr m i
on_status-IsOnce disconnecting p c m e t i = on_closed-IsOnce p c.addr m i

-- `OnConnection`, where the connection may tell that
abbrev heard : ℕ → Option Conn → Client → Client
heard p none m = m
heard p (some c) m = if may c.nsq.status p c m then (on_connection p (some c) m).0 else m

abbrev set_status : NsqConn.Status → ℕ → Option Conn → Client → Client
set_status st p none m = m
set_status st p (some c) m = record m { heap = store p (record c.nsq { status = st }) m.heap }

heard-IsOnce :
    (p : ℕ) (o : Option Conn) (m : Client) → deref p m.heap ≡ o → IsOnce m → IsOnce (heard p o m)
unfolding on_connection
heard-IsOnce p none m e i = i
heard-IsOnce p (some c) m e i = elim (Bool-cases (may c.nsq.status p c m)) [
  | inl t ↦ rw t (on_status-IsOnce c.nsq.status p c m e t i)
  | inr t ↦ rw t i
]

set_status-IsOnce :
    (st : NsqConn.Status) (p : ℕ) (o : Option Conn) (m : Client)
    → IsOnce m
    → IsOnce (set_status st p o m)
set_status-IsOnce st p none m i = i
set_status-IsOnce st p (some c) m i =
    let n : NsqConn = record c.nsq { status = st } in
    extend-IsOnce (store p n m.heap) m (store-Extends p n m.heap) i

neither : (o : Option (Option ℕ)) (b : Bool) → (is_found o || b) ≡ false → (o ≡ none) × (b ≡ false)
unfolding is_found
neither none b e = (refl, e)
neither (some p) b e = absurd (true≢false e)

new-once :
    (a addr : List ℕ) (m : Client)
    → find addr m.connecting_conns ≡ none
    → is_any addr m.heap m.conns ≡ false
    → IsOnce m
    → listed a m + one_if (is_same a addr) ≤ 1
new-once a addr m f n i = elim (Bool-cases (is_same a addr)) [
  | inl t ↦ rw t rw (is_same-eq a addr t) (
      omega
        (arith, in_connecting-none addr m.connecting_conns f, in_conns-none addr m.heap m.conns n))
  | inr t ↦ rw t (omega (arith, i.once a))
]

connect-IsOnce :
    (addr : List ℕ) (m : Client)
    → is_known_nsqd_address addr m ≡ false
    → IsOnce m
    → IsOnce (connect_to_nsqd addr m).0
unfolding connect_to_nsqd is_known_nsqd_address
connect-IsOnce addr m k i =
    let c : Conn = record { addr = addr; nsq = (NsqConn.connect NsqConn.new).0 } in
    let h : List Conn = m.heap ++ c ∷ [] in
    let (f, n) = neither (find addr m.connecting_conns) (is_any addr m.heap m.conns) k in
    let x : Extends m.heap h = append-Extends m.heap (c ∷ []) in
    record {
      once = λ a. omega (
        arith,
        new-once a addr m f n i,
        in_conns-Extends a m.heap h m.conns x i.valid,
        in_connecting-assign a addr (some (length m.heap)) m.connecting_conns f,
      );
      valid = (extend-IsOnce h m x i).valid;
      linked =
          subst (All (Linked h))
            (sym (assign-append addr (some (length m.heap)) m.connecting_conns f))
            (append-All (Linked h) m.connecting_conns ((addr, some (length m.heap)) ∷ [])
              (extend-IsOnce h m x i).linked (ap addr_at (deref-last m.heap c), _));
    }

handle_lookupd-IsOnce :
    (addrs : List (List ℕ)) (m : Client) → IsOnce m → IsOnce (handle_lookupd addrs m).0
unfolding handle_lookupd
handle_lookupd-IsOnce [] m i = i
handle_lookupd-IsOnce (a ∷ addrs) m i = elim (Bool-cases (is_known_nsqd_address a m)) [
  | inl t ↦ rw t (handle_lookupd-IsOnce addrs m i)
  | inr t ↦ rw t (handle_lookupd-IsOnce addrs (connect_to_nsqd a m).0 (connect-IsOnce a m t i))
]

-- An answer of lookupd, and a connection that gets a status and tells it
pub data Event : Type 0 where
  looks_up : List (List ℕ) → Event
  tells : ℕ → NsqConn.Status → Event

abbrev pub notified : ℕ → Client → Client
notified p m = heard p (deref p m.heap) m

abbrev pub step : Event → Client → Client
step (looks_up addrs) m = (handle_lookupd addrs m).0
step (tells p st) m = notified p (set_status st p (deref p m.heap) m)

abbrev pub run : List Event → Client → Client
run [] m = m
run (e ∷ es) m = run es (step e m)

step-IsOnce : (e : Event) (m : Client) → IsOnce m → IsOnce (step e m)
step-IsOnce (looks_up addrs) m i = handle_lookupd-IsOnce addrs m i
step-IsOnce (tells p st) m i = heard-IsOnce p _ _ refl (set_status-IsOnce st p (deref p m.heap) m i)

-- However often lookupd names an nsqd, and whatever the connections tell in whatever order, a client
-- has one connection at most with each address, in one of its lists, and what the map has for an
-- address is a connection with it. That holds as long as a connection tells that it connects only
-- while it is in one of the lists, and becomes connected or ready only while the map has it; addresses
-- come from lookupd alone, so that ConnectToNSQD of one that the client has already is left out.
pub run-IsOnce : (es : List Event) (m : Client) → IsOnce m → IsOnce (run es m)
run-IsOnce [] m i = i
run-IsOnce (e ∷ es) m i = run-IsOnce es (step e m) (step-IsOnce e m i)
