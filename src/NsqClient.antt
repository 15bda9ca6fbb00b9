-- ===== src/NsqClient.antt =====
-- apps/evnsq/client.h and client.cc, without lookupd's HTTP and JSON: the connections of a producer or
-- a consumer. The heap has every NSQConn that was made, and its place there is its pointer; an
-- answer of lookupd is the list of its addresses. Effects are listed in order.
pub mod Addresses
pub mod Heap
pub mod Listing
pub mod Once
mod Tests
use evpp.Base.{
  ℕ, zero, suc, Bool, true, false, List, [], ◌∷◌, ◌++◌, Option, none, some, ◌==◌, ◌&&◌, ◌||◌,
  if◌then◌else◌, length,
}
use evpp.Base.Dictionary.{is_same}
use evpp.NsqConn.{
  NsqConn, disconnected, connecting, identifying, authenticating, connected, subscribing, ready,
  disconnecting, subscribe,
}
use evpp.NsqConn
use evpp.Utility.{string_split}

pub data ClientType : Type 0 where
  consumer producer : ClientType

-- An `NSQConn` with its `remote_addr`
pub record Conn : Type 0 where
  pub addr : List ℕ
  pub nsq : NsqConn

pub record Client : Type 0 where
  pub type : ClientType
  pub topic : List ℕ
  pub channel : List ℕ
  pub heap : List Conn
  -- The map from an address to a pointer, `none` a null one
  pub connecting_conns : List (List ℕ × Option ℕ)
  pub conns : List ℕ
  pub closing : Bool
  -- `ready_to_publish_fn_` and `close_fn_` are set.
  pub ready_to_publish_fn : Bool
  pub close_fn : Bool

unfoldable pub new : ClientType → Client
new t = record {
  type = t;
  topic = [];
  channel = [];
  heap = [];
  connecting_conns = [];
  conns = [];
  closing = false;
  ready_to_publish_fn = false;
  close_fn = false;
}

pub data Effect : Type 0 where
  -- What the connection of a pointer does
  acts : ℕ → List NsqConn.Effect → Effect
  tells_ready_to_publish : ℕ → Effect
  tells_closed : Effect

-- What a pointer leads to
unfoldable pub deref : ℕ → List Conn → Option Conn
deref p [] = none
deref zero (c ∷ h) = some c
deref (suc p) (c ∷ h) = deref p h

-- A connection that has changed
unfoldable pub store : ℕ → NsqConn → List Conn → List Conn
store p n [] = []
store zero n (c ∷ h) = record c { nsq = n } ∷ h
store (suc p) n (c ∷ h) = c ∷ store p n h

-- The map of the connecting ones: `find`, an assignment and `erase`
pub find : List ℕ → List (List ℕ × Option ℕ) → Option (Option ℕ)
find a [] = none
find a ((b, p) ∷ m) = let rest = find a m in if is_same a b then some p else rest

pub assign : List ℕ → Option ℕ → List (List ℕ × Option ℕ) → List (List ℕ × Option ℕ)
assign a p [] = (a, p) ∷ []
assign a p ((b, q) ∷ m) =
    let rest = assign a p m in if is_same a b then (b, p) ∷ m else (b, q) ∷ rest

pub erase : List ℕ → List (List ℕ × Option ℕ) → List (List ℕ × Option ℕ)
erase a [] = []
erase a ((b, p) ∷ m) = let rest = erase a m in if is_same a b then m else (b, p) ∷ rest

pub has : ℕ → List ℕ → Bool
has p [] = false
has p (q ∷ qs) = p == q || has p qs

-- `conns_.erase` of the first entry that is this connection
pub remove : ℕ → List ℕ → List ℕ
remove p [] = []
remove p (q ∷ qs) = let rest = remove p qs in if p == q then qs else q ∷ rest

-- `ConnectToNSQD`
unfoldable pub connect_to_nsqd : List ℕ → Client → Client × List Effect
connect_to_nsqd addr m =
    let (n, es) = NsqConn.connect NsqConn.new in
    (
      record m {
        heap = m.heap ++ record { addr = addr; nsq = n } ∷ [];
        connecting_conns = assign addr (some (length m.heap)) m.connecting_conns;
      },
      acts (length m.heap) es ∷ [],
    )

abbrev pub then_all : (Client → Client × List Effect) → Client × List Effect → Client × List Effect
then_all f (m, es) = let (m', es') = f m in (m', es ++ es')

-- `ConnectToNSQDs` of a list and of a text
pub connect_to_each : List (List ℕ) → Client → Client × List Effect
connect_to_each [] m = (m, [])
connect_to_each (a ∷ addrs) m = then_all (connect_to_each addrs) (connect_to_nsqd a m)

pub connect_to_nsqds : List ℕ → Client → Client × List Effect
connect_to_nsqds addrs m = connect_to_each (string_split (b',' ∷ []) 0 addrs) m

pub has_addr : List ℕ → Option Conn → Bool
has_addr addr none = false
has_addr addr (some c) = is_same c.addr addr

pub is_any : List ℕ → List Conn → List ℕ → Bool
is_any addr h [] = false
is_any addr h (p ∷ ps) = has_addr addr (deref p h) || is_any addr h ps

pub is_found : Option (Option ℕ) → Bool
is_found none = false
is_found (some p) = true

-- `IsKnownNSQDAddress`
unfoldable pub is_known_nsqd_address : List ℕ → Client → Bool
is_known_nsqd_address addr m = is_found (find addr m.connecting_conns) || is_any addr m.heap m.conns

-- The loop of `HandleLoopkupdHTTPResponse` over the addresses
unfoldable pub handle_lookupd : List (List ℕ) → Client → Client × List Effect
handle_lookupd [] m = (m, [])
handle_lookupd (a ∷ addrs) m =
    if is_known_nsqd_address a m
    then handle_lookupd addrs m
    else then_all (handle_lookupd addrs) (connect_to_nsqd a m)

-- `MoveToConnectingList`, with what the map has for the address; a null pointer stays in the map if
-- the connection is in neither list.
pub move_found : ℕ → List ℕ → Option (Option ℕ) → Client → Client
move_found p addr (some (some q)) m = m
move_found p addr _ m =
    if has p m.conns
    then record m {
      connecting_conns = assign addr (some p) m.connecting_conns;
      conns = remove p m.conns;
    }
    else record m { connecting_conns = assign addr none m.connecting_conns }

pub move_to_connecting_list : ℕ → List ℕ → Client → Client
move_to_connecting_list p addr m = move_found p addr (find addr m.connecting_conns) m

-- A connection joins `conns_`.
abbrev pub joined : ℕ → List ℕ → Client → Client
joined p addr m = record m {
  conns = m.conns ++ p ∷ [];
  connecting_conns = erase addr m.connecting_conns;
}

pub on_connected : ClientType → ℕ → Conn → Client → Client × List Effect
on_connected consumer p c m =
    let (n, es) = subscribe m.topic m.channel c.nsq in
    (record m { heap = store p n m.heap }, acts p es ∷ [])
on_connected producer p c m = (
  joined p c.addr (record m { heap = store p (record c.nsq { status = ready }) m.heap }),
  if m.ready_to_publish_fn then tells_ready_to_publish p ∷ [] else [],
)

abbrev pub is_empty : {A : Type 0} → List A → Bool
is_empty [] = true
is_empty (x ∷ xs) = false

-- The `default` of `OnConnection`
pub on_closed : ℕ → List ℕ → Client → Client × List Effect
on_closed p addr m =
    let conns = remove p m.conns in
    let connecting = erase addr m.connecting_conns in
    (
      record m { conns = conns; connecting_conns = connecting },
      if is_empty connecting && is_empty conns && m.close_fn then tells_closed ∷ [] else [],
    )

-- `OnConnection`, for the connection as the heap has it
pub on_status : NsqConn.Status → ℕ → Conn → Client → Client × List Effect
on_status connecting p c m = (move_to_connecting_list p c.addr m, [])
on_status connected p c m = on_connected m.type p c m
on_status ready p c m = (joined p c.addr m, [])
on_status _ p c m = on_closed p c.addr m

pub on_connection : ℕ → Option Conn → Client → Client × List Effect
on_connection p none m = (m, [])
on_connection p (some c) m = on_status c.nsq.status p c m

-- `Close` of the connection of a pointer
pub close_at : ℕ → Option Conn → Client → Client × List Effect
close_at p none m = (m, [])
close_at p (some c) m =
    let (n, es) = NsqConn.close c.nsq in (record m { heap = store p n m.heap }, acts p es ∷ [])

pub close_each : List ℕ → Client → Client × List Effect
close_each [] m = (m, [])
close_each (p ∷ ps) m = then_all (close_each ps) (close_at p (deref p m.heap) m)

-- The connecting ones; `none` is a null pointer among them.
pub pointers : List (List ℕ × Option ℕ) → Option (List ℕ)
pointers [] = some []
pointers ((a, none) ∷ m) = none
pointers ((a, some p) ∷ m) = elim (pointers m) [ none ↦ none | some ps ↦ some (p ∷ ps) ]

-- `Close` and its task, whose connections are taken to call back after its loops; `none` is a use of a
-- null pointer.
pub close : Client → Client
close m = record m { closing = true }

pub close_in_loop : Client → Option (Client × List Effect)
close_in_loop m = elim (pointers m.connecting_conns) [
  | none ↦ none
  | some ps ↦ some (close_each (m.conns ++ ps) (record m { ready_to_publish_fn = false }))
]

abbrev pub is_ready_conn : Option Conn → Bool
is_ready_conn none = false
is_ready_conn (some c) = elim c.nsq.status [ ready ↦ true | _ ↦ false ]

pub any_ready : List Conn → List ℕ → Bool
any_ready h [] = false
any_ready h (p ∷ ps) = is_ready_conn (deref p h) || any_ready h ps

-- `IsReady`
pub is_ready : Client → Bool
is_ready m = any_ready m.heap m.conns
