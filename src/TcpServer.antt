-- ===== src/TcpServer.antt =====
-- evpp/tcp_server.cc: the table of connections and the way to stop. Callbacks, tasks for other
-- loops and discarded sockets are returned as a list of effects, in order. `none` is a use of what
-- is gone: the listener, the thread pool, or a node of the table. The connection callback is taken to leave the
-- connection open.
pub mod Accepting
pub mod Listening
pub mod Removal
pub mod Stopping
mod Tests
use evpp.Base.{
  ℕ, zero, suc, ◌+◌, ◌%◌, ◌^◌, Bool, true, false, not, List, [], ◌∷◌, ◌++◌, Option, none, some,
  ◌&&◌, ◌==◌, if◌then◌else◌, ◌>>=◌, add_size,
}
use evpp.EventLoop.{is_running, is_empty, null, initialized, starting, running, stopping, stopped}
use evpp.EventLoop
use evpp.TcpConn.{disconnected, connected, disconnecting, is_connected}
use evpp.TcpConn
use evpp.ThreadPool.{
  ThreadPool, get_next_loop, get_next_loop_with_hash, begin_stop, end_stop, on_thread_exited,
  on_thread_started, join,
}
use evpp.ThreadPool

-- `ServerStatus::SubStatus`
pub data SubStatus : Type 0 where
  sub_status_null stopping_listener stopping_thread_pool : SubStatus

-- `ThreadDispatchPolicy::Policy`
pub data Policy : Type 0 where
  round_robin ip_address_hashing : Policy

abbrev pub is_stopping : EventLoop.Status → Bool
is_stopping stopping = true
is_stopping _ = false

-- What the server sees of a connection, and its loop.
pub record Conn : Type 0 where
  pub id : ℕ
  pub io_loop : ℕ
  pub status : TcpConn.Status

pub record TcpServer : Type 0 where
  pub status : EventLoop.Status
  pub substatus : SubStatus
  pub policy : Policy
  pub base_loop : ℕ
  -- `listener_` is set, and whether it accepts.
  pub listener : Option Bool
  pub tpool : Option ThreadPool
  pub next_conn_id : ℕ
  -- `connections_`, by ascending id.
  pub connections : List Conn
  pub stopped_cb : Bool

pub data Effect : Type 0 where
  discard_socket : Effect
  -- `OnAttachedToLoop` and `HandleClose` of a connection, run by its loop, and its removal.
  attach close remove : ℕ → Effect
  call_stopped : Effect

abbrev pub on : Bool → Effect → List Effect
on true e = e ∷ []
on false e = []

pub new : ℕ → ℕ → TcpServer
new base n = record {
  status = null;
  substatus = sub_status_null;
  policy = round_robin;
  base_loop = base;
  listener = none;
  tpool = some (ThreadPool.new base n);
  next_conn_id = 0;
  connections = [];
  stopped_cb = false;
}

pub init : TcpServer → TcpServer
init s = record s { status = initialized; listener = some false }

-- `tpool_->Start(true)` waits for the last thread's report.
pub start_pool : List (Option ℕ) → ThreadPool → Bool × ThreadPool
start_pool ts p =
    let (ok, p') = ThreadPool.start ts p in
    (ok, if ok then on_thread_started p.thread_num p' else p')

abbrev pool_started : Bool × ThreadPool → TcpServer → Bool × TcpServer
pool_started (true, p) s =
    (true, record s { status = running; listener = some true; tpool = some p })
pool_started (false, p) s = (false, record s { status = starting; tpool = some p })

pub start : List (Option ℕ) → TcpServer → Option (Bool × TcpServer)
start ts s = s.tpool >>= λ p. some (pool_started (start_pool ts p) s)

-- `GetNextLoop`; the hash is the peer's address.
pub next_loop : Policy → ℕ → ThreadPool → ℕ × ThreadPool
next_loop round_robin addr p = get_next_loop p
next_loop ip_address_hashing addr p = (get_next_loop_with_hash addr p, p)

-- `++next_conn_id_` and the new entry of the table. On the server's own loop, if tasks run at once,
-- the connection is attached before it is entered.
pub accepted : Bool → ℕ → ThreadPool → TcpServer → TcpServer × List Effect
accepted immediate l p s = (
  record s {
    tpool = some p;
    next_conn_id = add_size s.next_conn_id 1;
    connections =
        s.connections
        ++ record {
          id = add_size s.next_conn_id 1;
          io_loop = l;
          status = if immediate && (l == s.base_loop) then connected else disconnected;
        }
          ∷ [];
  },
  attach (add_size s.next_conn_id 1) ∷ [],
)

pub handle_new_conn : Bool → ℕ → TcpServer → Option (TcpServer × List Effect)
handle_new_conn immediate addr s =
    if is_stopping s.status
    then some (s, discard_socket ∷ [])
    else (s.tpool >>= λ p.
        let (l, p') = next_loop s.policy addr p in some (accepted immediate l p' s))

-- `OnAttachedToLoop` of a connection, as the table shows it
attach_conn : ℕ → List Conn → List Conn
attach_conn i [] = []
attach_conn i (c ∷ cs) =
    let rest = attach_conn i cs in (if c.id == i then record c { status = connected } else c) ∷ rest

pub on_attached : ℕ → TcpServer → TcpServer
on_attached i s = record s { connections = attach_conn i s.connections }

-- The threads are told to stop, end, and are joined; then the pool is gone.
pub stop_thread_pool : TcpServer → Option TcpServer
stop_thread_pool s = s.tpool >>= λ p. some (record s { substatus = sub_status_null; tpool = none })

-- `connections_.erase`
pub erase : ℕ → List Conn → List Conn
erase i [] = []
erase i (c ∷ cs) = let rest = erase i cs in if c.id == i then rest else c ∷ rest

-- The task of `RemoveConnection`
pub remove_connection : ℕ → TcpServer → Option (TcpServer × List Effect)
remove_connection i s =
    let s' : TcpServer = record s { connections = erase i s.connections } in
    if is_stopping s.status && is_empty s'.connections
    then (stop_thread_pool s' >>= λ s''.
        some (record s'' { stopped_cb = false; status = stopped }, on s.stopped_cb call_stopped))
    else some (s', [])

-- `Stop`, up to its task for the loop
pub stop : TcpServer → TcpServer
stop s = record s { status = stopping; substatus = stopping_listener }

-- The loop of `StopInLoop` over the table. `immediate` says that a task given to the server's loop
-- runs at once, as it does when the loop is running. `Close` of a connection on the server's own
-- loop removes it; removed at once, the node under the iterator is freed: `none`.
pub close_all : Bool → ℕ → List Conn → Option (List Conn × List Effect)
close_all immediate base [] = some ([], [])
close_all immediate base (c ∷ cs) =
    let rest = close_all immediate base cs in
    if not (is_connected c.status)
    then (rest >>= λ (cs', es). some (c ∷ cs', es))
    else if not (c.io_loop == base)
    then (rest >>= λ (cs', es). some (record c { status = disconnecting } ∷ cs', close c.id ∷ es))
    else if immediate
    then none
    else (rest >>= λ (cs', es). some (record c { status = disconnected } ∷ cs', remove c.id ∷ es))

pub stop_in_loop : Bool → Bool → TcpServer → Option (TcpServer × List Effect)
stop_in_loop immediate cb s = s.listener >>= λ accepting.
    if is_empty s.connections
    then (stop_thread_pool s >>= λ s'.
        some (record s' { listener = none; status = stopped }, on cb call_stopped))
    else (close_all immediate s.base_loop s.connections >>= λ (cs, es).
        some (record s { listener = none; connections = cs; stopped_cb = cb }, es))
