-- ===== src/HttpServer/Tests.antt =====
-- Each theorem about evpp/http/http_server.cc at a server of its own.
use evpp.Base.{ℕ, ◌≡◌, refl, Bool, true, false, not, List, [], ◌∷◌, none, some, ◌==◌, map, arith}
use evpp.Base.Decimal.{to_string}
use evpp.Base.Dictionary.{codes}
use evpp.EvhttpService.{Service, find}
use evpp.EventLoop.{running}
use evpp.ThreadPool
use evpp.Utility.Splitting.{join}
use evpp.HttpServer.{HttpServer, ListenThread, started, init}
use evpp.HttpServer.Serving.{serve, answer_found, IsFresh, serve-answer}
use evpp.HttpServer.Ports.{all_bound, bound, with_ports, init-ports}

abbrev server : HttpServer
server = record {
  status = running;
  listen_threads = [];
  tpool = ThreadPool.new 0 4;
  callbacks = (codes "/status", 1) ∷ (codes "/echo", 2) ∷ [];
  default_callback = some 3;
  round_robin = true;
}

abbrev hservice : Service
hservice = record {
  evhttp = true;
  bound_socket = true;
  enabled = true;
  callbacks = [];
  default_callback = none;
}

abbrev listener : ListenThread
listener = record { loop = 7; thread_running = false; hservice = hservice }

hservice-IsFresh : IsFresh hservice
hservice-IsFresh = record { no_callbacks = refl; no_default = refl }

-- The text and the code of each handler
abbrev user : ℕ → List ℕ × ℕ
user h = (codes "ok", 200)

serve-answer_example :
    serve user (codes "/echo") true 7 5 (started server listener).hservice server server hservice
    ≡ some (answer_found user (some 3) (find (codes "/echo") server.callbacks))
unfolding find
serve-answer_example =
    serve-answer user (codes "/echo") 7 5 server server server listener hservice (refl, (refl, tt))
      hservice-IsFresh refl refl refl

-- The port 443 is taken.
abbrev binds : ℕ → Bool
binds port = not (port == 443)

init-ports_example : init binds (join b',' (map to_string (8080 ∷ 443 ∷ 80 ∷ []))) server ≡ (
  all_bound binds (8080 ∷ 443 ∷ 80 ∷ []),
  with_ports (all_bound binds (8080 ∷ 443 ∷ 80 ∷ [])) (bound binds (8080 ∷ 443 ∷ 80 ∷ [])) server,
)
init-ports_example =
    init-ports binds 8080 (443 ∷ 80 ∷ []) server
      ((omega arith, omega arith), ((omega arith, omega arith), ((omega arith, omega arith), tt)))
