-- ===== src/UdpServer.antt =====
-- evpp/udp/udp_server.cc: the threads that receive datagrams. A thread makes one access of its status
-- or one system call a step, whatever other threads store in between; what recvfrom returns, whether a
-- port can be bound and the hash of an address are arguments.
pub mod Stopping
pub mod Pausing
mod Tests
use evpp.Base.{
  ℕ, Bool, true, false, List, [], ◌∷◌, ◌++◌, Option, none, some, ◌&&◌, map, if◌then◌else◌,
}
use evpp.HttpServer.{port_numbers}
use evpp.ThreadPool.{ThreadPool, get_next_loop, get_next_loop_with_hash}
use evpp.Utility.{string_split}

-- `Status`; its numbers are not used.
pub data Status : Type 0 where
  running paused stopping stopped : Status

abbrev pub is_running : Status → Bool
is_running running = true
is_running _ = false

abbrev pub is_stopped : Status → Bool
is_stopped stopped = true
is_stopped _ = false

abbrev pub is_paused : Status → Bool
is_paused paused = true
is_paused _ = false

-- What a thread does next: store kRunning, test for a pause, test for the end, receive, store kStopped.
pub data Position : Type 0 where
  beginning pause_test run_test receiving leaving ended : Position

pub record RecvThread : Type 0 where
  pub port : ℕ
  pub status : Status
  pub at : Position

-- A thread that is made, with a socket or not
pub new_thread : ℕ → RecvThread
new_thread port = record { port = port; status = stopped; at = beginning }

-- What `recvfrom` returns: a datagram and the hash of its sender, or an error
pub data Received : Type 0 where
  datagram : List ℕ → ℕ → Received
  retriable fails : Received

abbrev pub handed : Received → List (List ℕ × ℕ)
handed (datagram d hash) = (d, hash) ∷ []
handed retriable = []
handed fails = []

-- `RecvingLoop`, one step; with the datagram that it hands over
pub step_at : Position → Received → RecvThread → RecvThread × List (List ℕ × ℕ)
step_at beginning r t = (record t { status = running; at = pause_test }, [])
step_at pause_test r t = (if is_paused t.status then t else record t { at = run_test }, [])
step_at run_test r t = (record t { at = if is_running t.status then receiving else leaving }, [])
step_at receiving r t = (record t { at = pause_test }, handed r)
step_at leaving r t = (record t { status = stopped; at = ended }, [])
step_at ended r t = (t, [])

pub thread_step : Received → RecvThread → RecvThread × List (List ℕ × ℕ)
thread_step r t = step_at t.at r t

-- The steps of a thread for as many answers of recvfrom, and what it hands over
pub run_thread : List Received → RecvThread → RecvThread × List (List ℕ × ℕ)
run_thread [] t = (t, [])
run_thread (r ∷ rs) t =
    let (t', d) = thread_step r t in let (t'', ds) = run_thread rs t' in (t'', d ++ ds)

-- `Stop`, `Pause` and `Continue` of a thread
pub stop_thread : RecvThread → RecvThread
stop_thread t = record t { status = stopping }

pub pause_thread : RecvThread → RecvThread
pause_thread t = record t { status = paused }

pub resume_thread : RecvThread → RecvThread
resume_thread t = record t { status = running }

pub record UdpServer : Type 0 where
  pub recv_threads : List RecvThread
  pub message_handler : Bool
  pub tpool : Option ThreadPool
  -- `IsRoundRobin`
  pub round_robin : Bool

-- `Init` of a port: the thread is kept in any case.
pub init_port : (ℕ → Bool) → ℕ → UdpServer → Bool × UdpServer
init_port binds port s =
    (binds port, record s { recv_threads = s.recv_threads ++ new_thread port ∷ [] })

pub init_ports : (ℕ → Bool) → List ℕ → UdpServer → Bool × UdpServer
init_ports binds [] s = (true, s)
init_ports binds (port ∷ ports) s =
    let (rc, s') = init_port binds port s in
    let rest = init_ports binds ports s' in if rc then rest else (false, s')

abbrev pub if_ports : (ℕ → Bool) → Option (List ℕ) → UdpServer → Bool × UdpServer
if_ports binds none s = (false, s)
if_ports binds (some ports) s = init_ports binds ports s

-- `Init` of a text, which is read as that of an HTTP server
pub init : (ℕ → Bool) → List ℕ → UdpServer → Bool × UdpServer
init binds listen_ports s =
    if_ports binds (port_numbers (string_split (b',' ∷ []) 0 listen_ports)) s

abbrev pub all : (Status → Bool) → List RecvThread → Bool
all p [] = true
all p (t ∷ ts) = p t.status && all p ts

-- `IsRunning` and `IsStopped`, which the waits of `Start` and `Stop` are for
pub server_is_running : UdpServer → Bool
server_is_running s = all is_running s.recv_threads

pub server_is_stopped : UdpServer → Bool
server_is_stopped s = all is_stopped s.recv_threads

-- `Start` up to its wait: without a handler no thread is run.
pub start : UdpServer → Bool
start s = s.message_handler

pub stop : UdpServer → UdpServer
stop s = record s { recv_threads = map stop_thread s.recv_threads }

pub pause : UdpServer → UdpServer
pause s = record s { recv_threads = map pause_thread s.recv_threads }

-- `Continue`
pub resume : UdpServer → UdpServer
resume s = record s { recv_threads = map resume_thread s.recv_threads }

abbrev pub on_loop : UdpServer → ℕ × ThreadPool → Option ℕ × UdpServer
on_loop s (l, p) = (some l, record s { tpool = some p })

-- The loop on which the handler is called for a datagram; `none` is the receiving thread itself.
pub loop_for : ℕ → UdpServer → Option ThreadPool → Option ℕ × UdpServer
loop_for hash s none = (none, s)
loop_for hash s (some p) =
    if s.round_robin
    then on_loop s (get_next_loop p)
    else (some (get_next_loop_with_hash hash p), s)
