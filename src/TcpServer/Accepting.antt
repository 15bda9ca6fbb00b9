-- ===== src/TcpServer/Accepting.antt =====
-- evpp/tcp_server.cc: the ids of the connections in the table.
use evpp.Base.{
  ℕ, ◌+◌, ◌^◌, ◌≤◌, ◌<◌, ◌≡◌, refl, sym, ap, subst, length, Bool, false, List, [], ◌∷◌, ◌++◌,
  Option, some, ◌&&◌, ◌==◌, if◌then◌else◌, add_size, arith, ◌>>=◌, inl, inr, Bool-cases,
}
use native.Mathlib.Nat.{mod-eq_of_lt}
use evpp.TcpConn.{connected, disconnected}
use evpp.ThreadPool.{ThreadPool}
use evpp.TcpServer.{
  TcpServer, Conn, attach, is_stopping, erase, attach_conn, on_attached, remove_connection,
  next_loop, accepted, handle_new_conn,
}

-- The ids ascend, each above the lower bound and none above the upper one.
abbrev pub Between : ℕ → ℕ → List Conn → Type 0
Between lo hi [] = lo ≤ hi
Between lo hi (c ∷ cs) = (lo < c.id) × Between c.id hi cs

Between-lower : (lo lo' hi : ℕ) (cs : List Conn) → lo' ≤ lo → Between lo hi cs → Between lo' hi cs
Between-lower lo lo' hi [] h b = omega arith
Between-lower lo lo' hi (c ∷ cs) h b = (omega arith, b.1)

Between-append :
    (lo hi : ℕ) (cs : List Conn) (c : Conn)
    → Between lo hi cs
    → c.id ≡ hi + 1
    → Between lo (hi + 1) (cs ++ c ∷ [])
Between-append lo hi [] c b e = (omega arith, omega arith)
Between-append lo hi (d ∷ cs) c b e = (b.0, Between-append d.id hi cs c b.1 e)

erase-Between : (i lo hi : ℕ) (cs : List Conn) → Between lo hi cs → Between lo hi (erase i cs)
unfolding erase
erase-Between i lo hi [] b = b
erase-Between i lo hi (c ∷ cs) b = elim (Bool-cases (c.id == i)) [
  | inl e ↦
      rw e (Between-lower c.id lo hi (erase i cs) (omega arith) (erase-Between i c.id hi cs b.1))
  | inr e ↦ rw e (b.0, erase-Between i c.id hi cs b.1)
]

attach_conn-Between :
    (i lo hi : ℕ) (cs : List Conn) → Between lo hi cs → Between lo hi (attach_conn i cs)
unfolding attach_conn
attach_conn-Between i lo hi [] b = b
attach_conn-Between i lo hi (c ∷ cs) b = elim (Bool-cases (c.id == i)) [
  | inl e ↦ rw e (b.0, attach_conn-Between i c.id hi cs b.1)
  | inr e ↦ rw e (b.0, attach_conn-Between i c.id hi cs b.1)
]

-- The ids are in order and none is used twice, and the server accepts.
pub record IsOpen (s : TcpServer) : Type 0 where
  pub up : is_stopping s.status ≡ false
  pub pool : ThreadPool
  pub alive : s.tpool ≡ some pool
  pub ordered : Between 0 s.next_conn_id s.connections

-- A new connection of a server that accepts gets the next id, which no other has, and the loop
-- that the policy picks, and its loop is told to attach it.
pub handle_new_conn_lem :
    (immediate : Bool) (addr : ℕ) (s : TcpServer) (open_ : IsOpen s)
    → s.next_conn_id + 1 < 2 ^ 64
    → (s' : TcpServer) × (c : Conn) × (handle_new_conn immediate addr s
        ≡ some (s', attach (s.next_conn_id + 1) ∷ []))
      × (s'.next_conn_id ≡ s.next_conn_id + 1)
      × (s'.connections ≡ s.connections ++ c ∷ [])
      × (c.id ≡ s.next_conn_id + 1)
      × (c.io_loop ≡ (next_loop s.policy addr open_.pool).0)
      × IsOpen s'
unfolding handle_new_conn accepted
handle_new_conn_lem immediate addr s o f =
    let (l, p) = next_loop s.policy addr o.pool in
    let no_wrap : add_size s.next_conn_id 1 ≡ s.next_conn_id + 1 = mod-eq_of_lt f in
    let c : Conn = record {
      id = add_size s.next_conn_id 1;
      io_loop = l;
      status = if immediate && (l == s.base_loop) then connected else disconnected;
    } in
    (
      (accepted immediate l p s).0,
      c,
      rw o.up rw o.alive (ap (λ n. some ((accepted immediate l p s).0, attach n ∷ [])) no_wrap),
      no_wrap,
      refl,
      no_wrap,
      refl,
      record {
        up = o.up;
        pool = p;
        alive = refl;
        ordered =
            subst (λ n. Between 0 n (s.connections ++ c ∷ [])) (sym no_wrap)
              (Between-append 0 s.next_conn_id s.connections c o.ordered no_wrap);
      },
    )

-- What reaches the server: a connection from an address, and the tasks of its connections.
pub data Event : Type 0 where
  arrives attached removed : ℕ → Event

abbrev pub apply : Bool → Event → TcpServer → Option TcpServer
apply immediate (arrives addr) s = handle_new_conn immediate addr s >>= λ (s', es). some s'
apply immediate (attached i) s = some (on_attached i s)
apply immediate (removed i) s = remove_connection i s >>= λ (s', es). some s'

abbrev pub run : Bool → List Event → TcpServer → Option TcpServer
run immediate [] s = some s
run immediate (e ∷ es) s = apply immediate e s >>= run immediate es

apply-IsOpen :
    (immediate : Bool) (e : Event) (s : TcpServer)
    → IsOpen s
    → s.next_conn_id + 1 < 2 ^ 64
    → (s' : TcpServer) × (apply immediate e s ≡ some s')
      × IsOpen s'
      × (s'.next_conn_id ≤ s.next_conn_id + 1)
unfolding on_attached remove_connection
apply-IsOpen immediate (arrives addr) s o f =
    let (s', c, r, n, t, i, l, o') = handle_new_conn_lem immediate addr s o f in
    (s', rw r refl, o', omega (arith, n))
apply-IsOpen immediate (attached i) s o f = (
  record s { connections = attach_conn i s.connections },
  refl,
  record {
    up = o.up;
    pool = o.pool;
    alive = o.alive;
    ordered = attach_conn-Between i 0 s.next_conn_id s.connections o.ordered;
  },
  omega arith,
)
apply-IsOpen immediate (removed i) s o f = (
  record s { connections = erase i s.connections },
  rw o.up refl,
  record {
    up = o.up;
    pool = o.pool;
    alive = o.alive;
    ordered = erase-Between i 0 s.next_conn_id s.connections o.ordered;
  },
  omega arith,
)

-- Whatever reaches a server that accepts, as long as the counter of ids does not wrap, it goes on
-- accepting, and the ids in its table stay in order and distinct.
pub run-IsOpen :
    (immediate : Bool) (es : List Event) (s : TcpServer)
    → IsOpen s
    → s.next_conn_id + length es < 2 ^ 64
    → (s' : TcpServer) × (run immediate es s ≡ some s') × IsOpen s'
run-IsOpen immediate [] s o f = (s, refl, o)
run-IsOpen immediate (e ∷ es) s o f =
    let (s', r, o', n) = apply-IsOpen immediate e s o (omega arith) in
    let (s'', rs, o'') = run-IsOpen immediate es s' o' (omega arith) in (s'', rw r rs, o'')
