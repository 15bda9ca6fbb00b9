-- ===== src/TcpServer/Listening.antt =====
-- evpp/listener.cc and tcp_server.cc together: the callback of the listener is HandleNewConn.
use evpp.Base.{
  ℕ, ◌+◌, ◌^◌, ◌<◌, ◌≡◌, refl, sym, ap, ap₂, subst, ◌∙◌, Bool, true, List, [], ◌∷◌, ◌++◌, Option,
  none, some, ◌>>=◌, length, append_assoc, append-nil, arith,
}
use evpp.Listener.{Listener, Client, closes, hands_over, named, handle_accept, handle_accepts}
use evpp.Listener
use evpp.Listener.Accepting.{fds_of, descriptors, descriptors-handle_accepts, accepts_le}
use evpp.Sockets.{Family, Pton}
use evpp.TcpServer.{TcpServer, Conn, Effect, attach, handle_new_conn}
use evpp.TcpServer.Accepting.{IsOpen, handle_new_conn_lem}

-- The connection that a descriptor has got, if any
abbrev pub owner : List Effect → Option ℕ
owner (attach i ∷ es) = some i
owner _ = none

abbrev pub owned : ℕ → Option (TcpServer × List Effect) → Option (TcpServer × ℕ × Option ℕ)
owned fd none = none
owned fd (some (s, es)) = some (s, fd, owner es)

module _ (hash : List ℕ → ℕ) (immediate : Bool) where
  -- What an effect of the listener does to the server: `EVUTIL_CLOSESOCKET`, or `HandleNewConn`
  abbrev pub receive : Listener.Effect → TcpServer → Option (TcpServer × ℕ × Option ℕ)
  receive (closes fd) s = some (s, fd, none)
  receive (hands_over fd raddr) s = owned fd (handle_new_conn immediate (hash raddr) s)

  -- All of them, with each descriptor and its connection
  pub receive_all : List Listener.Effect → TcpServer → Option (TcpServer × List (ℕ × Option ℕ))
  receive_all [] s = some (s, [])
  receive_all (e ∷ es) s =
      receive e s >>= λ (s', fd, o). receive_all es s' >>= λ (s'', fs). some (s'', (fd, o) ∷ fs)

-- The descriptors, and the connections that they have
abbrev pub fds : List (ℕ × Option ℕ) → List ℕ
fds [] = []
fds ((fd, o) ∷ fs) = fd ∷ fds fs

abbrev pub owners : List (ℕ × Option ℕ) → List ℕ
owners [] = []
owners ((fd, none) ∷ fs) = owners fs
owners ((fd, some i) ∷ fs) = i ∷ owners fs

abbrev pub ids : List Conn → List ℕ
ids [] = []
ids (c ∷ cs) = c.id ∷ ids cs

-- The server goes on accepting, and has a new connection for each descriptor that is not closed.
pub record Receives (s : TcpServer) (given : List ℕ) (r : Option (TcpServer × List (ℕ × Option ℕ)))
    : Type 0 where
  pub after : TcpServer
  pub fates : List (ℕ × Option ℕ)
  pub added : List Conn
  pub result : r ≡ some (after, fates)
  pub all : fds fates ≡ given
  pub entered : after.connections ≡ s.connections ++ added
  pub added_ids : ids added ≡ owners fates
  pub open_ : IsOpen after

receive_all-Receives :
    (hash : List ℕ → ℕ) (immediate : Bool) (es : List Listener.Effect) (s : TcpServer)
    → IsOpen s
    → s.next_conn_id + length es < 2 ^ 64
    → Receives s (descriptors es) (receive_all hash immediate es s)
unfolding receive_all
receive_all-Receives hash immediate [] s o f = record {
  after = s;
  fates = [];
  added = [];
  result = refl;
  all = refl;
  entered = sym (append-nil s.connections);
  added_ids = refl;
  open_ = o;
}
receive_all-Receives hash immediate (closes fd ∷ es) s o f =
    let r = receive_all-Receives hash immediate es s o (omega arith) in
    record {
      after = r.after;
      fates = (fd, none) ∷ r.fates;
      added = r.added;
      result = rw r.result refl;
      all = ap (λ l. fd ∷ l) r.all;
      entered = r.entered;
      added_ids = r.added_ids;
      open_ = r.open_;
    }
receive_all-Receives hash immediate (hands_over fd raddr ∷ es) s o f =
    let (s', c, e, n, t, i, l, o') = handle_new_conn_lem immediate (hash raddr) s o (omega arith) in
    let r = receive_all-Receives hash immediate es s' o' (omega (arith, n)) in
    record {
      after = r.after;
      fates = (fd, some (s.next_conn_id + 1)) ∷ r.fates;
      added = c ∷ r.added;
      result = rw e rw r.result refl;
      all = ap (λ l. fd ∷ l) r.all;
      entered = r.entered ∙ ap (λ l. l ++ r.added) t ∙ append_assoc s.connections (c ∷ []) r.added;
      added_ids = ap₂ (λ j l. j ∷ l) i r.added_ids;
      open_ = r.open_;
    }

-- No descriptor is lost between the listener and a server that accepts: whatever accept, the addresses
-- and the system calls are, each descriptor that accept gives is closed, or it has one new connection
-- in the table, once and in order, and no two connections have the same id; as long as the counter of
-- ids does not wrap.
pub handle_accepts-Receives :
    (hash : List ℕ → ℕ) (immediate : Bool) (pton : Family → List ℕ → Pton)
    (ntop : Family → List ℕ → Option (List ℕ)) (l : Listener) (cs : List (Option Client))
    (s : TcpServer)
    → l.new_conn_fn ≡ true
    → IsOpen s
    → s.next_conn_id + length cs < 2 ^ 64
    → Receives s (fds_of cs) (receive_all hash immediate (handle_accepts pton ntop l cs) s)
handle_accepts-Receives hash immediate pton ntop l cs s f o n =
    let es : List Listener.Effect = handle_accepts pton ntop l cs in
    subst (λ given. Receives s given (receive_all hash immediate es s))
      (descriptors-handle_accepts pton ntop l cs f)
      (receive_all-Receives hash immediate es s o (omega (arith, accepts_le pton ntop l cs)))
