-- ===== src/HttpServer.antt =====
-- evpp/http/http_server.cc, without SSL: a server with a listening service for each port and a pool of
-- worker threads. Whether a port can be bound and a thread starts are arguments; handlers are known
-- by numbers, loops too.
pub mod Serving
pub mod Ports
mod Tests
use evpp.Base.{
  ℕ, zero, suc, Bool, true, false, not, List, [], ◌∷◌, ◌++◌, Option, none, some, ◌&&◌, ◌==◌, map,
  if◌then◌else◌, length,
}
use evpp.Base.Decimal.{ℤ, pos, negsuc, atoi}
use evpp.EvhttpService.{
  Service, Reply, Handling, calls, replies, assign, handle_request, send_reply,
}
use evpp.EvhttpService
use evpp.EventLoop.{
  Status, null, initializing, initialized, starting, running, stopping, stopped, is_running,
  is_empty,
}
use evpp.ThreadPool.{ThreadPool, get_next_loop, get_next_loop_with_hash}
use evpp.ThreadPool
use evpp.Utility.{string_split}

-- `ListenThread`: the service of a listening thread, the thread's loop, and whether it runs
pub record ListenThread : Type 0 where
  pub loop : ℕ
  pub thread_running : Bool
  pub hservice : Service

pub record HttpServer : Type 0 where
  pub status : Status
  pub listen_threads : List ListenThread
  pub tpool : ThreadPool
  pub callbacks : List (List ℕ × ℕ)
  pub default_callback : Option ℕ
  -- `IsRoundRobin`
  pub round_robin : Bool

pub new : ℕ → HttpServer
new thread_num = record {
  status = null;
  listen_threads = [];
  tpool = ThreadPool.new 0 thread_num;
  callbacks = [];
  default_callback = none;
  round_robin = true;
}

abbrev pub listened : ℕ → HttpServer → Bool × Service → Bool × HttpServer
listened port s (false, hs) = (false, s)
listened port s (true, hs) = (
  true,
  record s {
    status = initialized;
    listen_threads =
        s.listen_threads ++ record { loop = port; thread_running = false; hservice = hs } ∷ [];
  },
)

-- `Init` of a port; its number also names the loop of its thread.
pub init_port : (ℕ → Bool) → ℕ → HttpServer → Bool × HttpServer
init_port binds port s =
    listened port (record s { status = initializing })
      (EvhttpService.listen (binds port) EvhttpService.new)

-- The loop of `Init` over the ports
pub init_each : (ℕ → Bool) → List ℕ → Bool → HttpServer → Bool × HttpServer
init_each binds [] rc s = (rc, s)
init_each binds (port ∷ ports) false s = init_each binds ports false s
init_each binds (port ∷ ports) true s =
    let (rc, s') = init_port binds port s in init_each binds ports rc s'

abbrev pub settled : Bool × HttpServer → Bool × HttpServer
settled (rc, s) = (rc, record s { status = if rc then initialized else initializing })

-- `Init` of some ports
pub init_ports : (ℕ → Bool) → List ℕ → HttpServer → Bool × HttpServer
init_ports binds ports s = settled (init_each binds ports true (record s { status = initializing }))

-- The numbers of a text, if they are all above zero
abbrev pub with_port : ℤ → Option (List ℕ) → Option (List ℕ)
with_port (pos zero) ports = none
with_port (pos (suc n)) none = none
with_port (pos (suc n)) (some ports) = some (suc n ∷ ports)
with_port (negsuc n) ports = none

pub port_numbers : List (List ℕ) → Option (List ℕ)
port_numbers [] = some []
port_numbers (t ∷ ts) = with_port (atoi t) (port_numbers ts)

abbrev pub if_ports : (ℕ → Bool) → Option (List ℕ) → HttpServer → Bool × HttpServer
if_ports binds none s = (false, s)
if_ports binds (some ports) s = settled (init_ports binds ports s)

-- `Init` of a text such as "80,8080,443"
pub init : (ℕ → Bool) → List ℕ → HttpServer → Bool × HttpServer
init binds listen_ports s =
    if_ports binds (port_numbers (string_split (b',' ∷ []) 0 listen_ports))
      (record s { status = initializing })

-- `RegisterHandler` and `RegisterDefaultHandler`
pub register_handler : List ℕ → ℕ → HttpServer → HttpServer
register_handler uri h s = record s { callbacks = assign uri h s.callbacks }

pub register_default_handler : ℕ → HttpServer → HttpServer
register_default_handler h s = record s { default_callback = some h }

-- What `Start` registers with a service: each handler, behind `Dispatch`
pub register_all : List (List ℕ × ℕ) → Service → Service
register_all [] hs = hs
register_all ((uri, h) ∷ m) hs = register_all m (EvhttpService.register_handler uri h hs)

pub register_default : Option ℕ → Service → Service
register_default none hs = hs
register_default (some h) hs = EvhttpService.register_default_handler h hs

abbrev pub started : HttpServer → ListenThread → ListenThread
started s t = record t {
  thread_running = true;
  hservice = register_default s.default_callback (register_all s.callbacks t.hservice);
}

-- `Start` up to its wait: the threads of the pool, or `none` for one that does not start, are
-- arguments; a listening thread that is waited for has started.
pub begin_start : List (Option ℕ) → HttpServer → Bool × HttpServer
begin_start ts s =
    let (rc, p) = ThreadPool.start ts s.tpool in
    if rc
    then (
      true,
      record s { status = starting; tpool = p; listen_threads = map (started s) s.listen_threads },
    )
    else (false, record s { status = starting; tpool = p })

pub all_running : List ListenThread → Bool
all_running [] = true
all_running (t ∷ ts) = t.thread_running && all_running ts

-- What `Start` waits for before it stores kRunning
pub may_run : HttpServer → Bool
may_run s =
    not (is_empty s.listen_threads) && (is_running s.tpool.status && all_running s.listen_threads)

-- What `Stop` does, in order
pub data Effect : Type 0 where
  pauses : ℕ → Effect
  stops_pool : Effect
  stops_thread : ℕ → Effect
  joins_pool : Effect
  joins_thread : ℕ → Effect

pub of_each : (ℕ → Effect) → List ListenThread → List Effect
of_each f [] = []
of_each f (t ∷ ts) = f t.loop ∷ of_each f ts

-- The future of `Stop` is set by the last of the listening threads that pauses: `none` is a wait for
-- ever.
pub stop : HttpServer → Option (HttpServer × List Effect)
stop s =
    if is_empty s.listen_threads
    then none
    else some (
      record s {
        status = stopped;
        listen_threads = [];
        tpool = ThreadPool.join (ThreadPool.stop false s.tpool).1;
      },
      of_each pauses s.listen_threads
          ++ (stops_pool
              ∷ (of_each stops_thread s.listen_threads
                  ++ (joins_pool ∷ of_each joins_thread s.listen_threads))),
    )

-- `Pause` and `Continue`, the tasks for the listening loops included
abbrev pub on_service : (Service → Service) → ListenThread → ListenThread
on_service f t = record t { hservice = f t.hservice }

pub pause : HttpServer → HttpServer
pause s = record s { listen_threads = map (on_service EvhttpService.pause) s.listen_threads }

pub resume : HttpServer → HttpServer
resume s = record s { listen_threads = map (on_service EvhttpService.resume) s.listen_threads }

-- `GetNextLoop`; the hash is of the client's address.
pub get_next_loop_for : ℕ → ℕ → HttpServer → ℕ × HttpServer
get_next_loop_for default_loop hash s =
    if s.tpool.thread_num == 0
    then (default_loop, s)
    else if s.round_robin
    then (let (l, p) = get_next_loop s.tpool in (l, record s { tpool = p }))
    else (get_next_loop_with_hash hash s.tpool, s)

-- `Dispatch`: the loop of the task, if there is one
pub dispatch : ℕ → ℕ → HttpServer → Option ℕ × HttpServer
dispatch listening_loop hash s =
    if is_running s.status
    then (let (l, s') = get_next_loop_for listening_loop hash s in (some l, s'))
    else (none, s)

-- The task of `Dispatch` calls the handler if the server still runs.
pub in_worker : ℕ → HttpServer → Option ℕ
in_worker h s = if is_running s.status then some h else none
