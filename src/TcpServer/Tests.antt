-- ===== src/TcpServer/Tests.antt =====
-- Each theorem about evpp/tcp_server.cc at a server of its own.
use evpp.Base.{ℕ, Option, length, ◌≡◌, refl, true, false, List, [], ◌∷◌, ◌++◌, some, none, arith}
use evpp.EventLoop.{running, stopping, stopped}
use evpp.TcpConn.{disconnected, connected, disconnecting}
use evpp.ThreadPool.{ThreadPool}
use evpp.ThreadPool
use evpp.TcpServer.{
  TcpServer, Conn, Effect, close, call_stopped, round_robin, sub_status_null, new, init, start,
  start_pool, stop, stop_in_loop,
}
use evpp.TcpServer.Accepting.{IsOpen, arrives, attached, removed, run, run-IsOpen}
use evpp.Base.Dictionary.{codes}
use evpp.Sockets.{Family, Pton, address}
use evpp.Listener.{Listener, Client, handle_accepts}
use evpp.Listener.Accepting.{fds_of}
use evpp.TcpServer.Listening.{Receives, receive_all, handle_accepts-Receives}
use evpp.TcpServer.Removal.{remove_all}
use evpp.TcpServer.Stopping.{stop_completes, stop_holds}

abbrev two_threads : ThreadPool
two_threads = record {
  status = running;
  base_loop = 0;
  thread_num = 2;
  threads = 11 ∷ 12 ∷ [];
  next = 0;
  stopped_cb = false;
}

abbrev idle : TcpServer
idle = record {
  status = running;
  substatus = sub_status_null;
  policy = round_robin;
  base_loop = 0;
  listener = some true;
  tpool = some two_threads;
  next_conn_id = 0;
  connections = [];
  stopped_cb = false;
}

started : start (some 11 ∷ some 12 ∷ []) (init (new 0 2)) ≡ some (true, idle)
unfolding start init new start_pool ThreadPool.new ThreadPool.start ThreadPool.start_threads
    ThreadPool.on_thread_started
started = refl

idle-IsOpen : IsOpen idle
idle-IsOpen = record { up = refl; pool = two_threads; alive = refl; ordered = omega arith }

run-IsOpen_example :
    (s' : TcpServer) × (run true
        (arrives 9 ∷ arrives 7 ∷ attached 1 ∷ removed 2 ∷ arrives 7 ∷ [])
        idle
      ≡ some s')
    × IsOpen s'
run-IsOpen_example =
    run-IsOpen true (arrives 9 ∷ arrives 7 ∷ attached 1 ∷ removed 2 ∷ arrives 7 ∷ []) idle
      idle-IsOpen (omega arith)

abbrev first : Conn
first = record { id = 1; io_loop = 11; status = connected }

abbrev second : Conn
second = record { id = 2; io_loop = 12; status = disconnecting }

abbrev busy : TcpServer
busy = record idle { next_conn_id = 2; connections = first ∷ second ∷ [] }

stop_completes_example :
    (s' : TcpServer) × (es es' : List Effect) × (stop_in_loop true true (stop busy) ≡ some (s', es))
    × (s'.listener ≡ none)
    × (remove_all (2 ∷ 1 ∷ []) s'
        ≡ some (
          record busy { status = stopped; listener = none; tpool = none; connections = [] },
          es',
        ))
    × (es ++ es' ≡ close 1 ∷ call_stopped ∷ [])
stop_completes_example =
    stop_completes true true busy true two_threads (2 ∷ 1 ∷ []) refl refl refl (refl, (refl, tt))
      (refl, (refl, tt))

stop_holds_example :
    (s' w : TcpServer) × (stop_in_loop true true (stop busy) ≡ some (s', close 1 ∷ []))
    × (remove_all (1 ∷ []) s' ≡ some (w, []))
    × (w.stopped_cb ≡ true)
    × (w.tpool ≡ some two_threads)
    × (w.status ≡ stopping)
stop_holds_example =
    stop_holds true true busy true (first ∷ []) second [] (1 ∷ []) refl (refl, (refl, tt)) refl refl

abbrev unattached : Conn
unattached = record { id = 1; io_loop = 11; status = disconnected }

abbrev pton : Family → List ℕ → Pton
pton family t = address (10 ∷ 0 ∷ 0 ∷ 7 ∷ [])

abbrev ntop : Family → List ℕ → Option (List ℕ)
ntop family a = some (codes "10.0.0.7")

-- An address of IPv4, and one of another family
abbrev inet_addr : List ℕ
inet_addr = 2 ∷ 0 ∷ 31 ∷ 144 ∷ 10 ∷ 0 ∷ 0 ∷ 7 ∷ []

abbrev unix_addr : List ℕ
unix_addr = 1 ∷ 0 ∷ 0 ∷ 0 ∷ []

abbrev clients : List (Option Client)
clients =
    some (record { fd = 7; addr = inet_addr; nonblocking = true })
    ∷ none
    ∷ some (record { fd = 8; addr = unix_addr; nonblocking = true })
    ∷ some (record { fd = 9; addr = inet_addr; nonblocking = false })
    ∷ []

abbrev listener : Listener
listener = record { chan = none; new_conn_fn = true }

handle_accepts-Receives_example :
    Receives idle
      (fds_of clients)
      (receive_all length true (handle_accepts pton ntop listener clients) idle)
handle_accepts-Receives_example =
    handle_accepts-Receives length true pton ntop listener clients idle refl idle-IsOpen
      (omega arith)
