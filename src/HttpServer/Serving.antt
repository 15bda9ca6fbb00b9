-- ===== src/HttpServer/Serving.antt =====
-- evpp/http/service.cc and http_server.cc: the whole way of a request.
use mathlib.Core.Bool.{true≢false}
use evpp.Base.{
  ℕ, ◌≡◌, refl, sym, ap, ap₂, ◌∙◌, Bool, true, false, List, [], ◌∷◌, Option, none, some,
  if◌then◌else◌, Bool-cases, inl, inr,
}
use evpp.Base.Dictionary.{is_same, is_same-eq}
use evpp.EvhttpService.{
  Service, Reply, reply, Handling, calls, replies, find, assign, found, default_handle_request,
  handle_request, send_in_loop, send_reply, register_handler, register_default_handler,
}
use evpp.EvhttpService
use evpp.EventLoop.{running, is_running}
use evpp.HttpServer.{
  HttpServer, ListenThread, register_all, register_default, started, dispatch, in_worker,
}

-- The text and the code that a handler gives to `SendReply`
abbrev pub sent : (ℕ → List ℕ × ℕ) → Bool → Service → Option ℕ → Option Reply
sent user loop_running hs none = none
sent user loop_running hs (some h) = send_reply loop_running (user h).0 (user h).1 hs

abbrev pub worked : (Option ℕ → Option Reply) → ℕ → HttpServer → Option ℕ → Option Reply
worked send h s none = none
worked send h s (some l) = send (in_worker h s)

abbrev pub handled :
    (Option ℕ → Option Reply) → ℕ → ℕ → HttpServer → HttpServer → Handling → Option Reply
handled send loop hash s s' (replies r) = some r
handled send loop hash s s' (calls h) = worked send h s' (dispatch loop hash s).0

-- A request with this path: `hs` is the service and `s` the server when it comes, `s'` the server in
-- the worker thread, `hs'` the service when the reply is sent.
pub serve :
    (ℕ → List ℕ × ℕ)
    → List ℕ
    → Bool
    → ℕ
    → ℕ
    → Service
    → HttpServer
    → HttpServer
    → Service
    → Option Reply
serve user uri loop_running loop hash hs s s' hs' =
    handled (sent user loop_running hs') loop hash s s' (handle_request uri hs)

-- The reply that is to be made with the text and the code of a handler
abbrev pub answer : List ℕ × ℕ → Reply
answer ([], code) = reply 404 none
answer (c ∷ text, code) = reply code (some (c ∷ text))

abbrev pub answer_default : (ℕ → List ℕ × ℕ) → Option ℕ → Reply
answer_default user none = reply 400 none
answer_default user (some h) = answer (user h)

-- By the handlers that were registered with the server
abbrev pub answer_found : (ℕ → List ℕ × ℕ) → Option ℕ → Option ℕ → Reply
answer_found user d none = answer_default user d
answer_found user d (some h) = answer (user h)

-- As in a map, no path stands twice.
abbrev pub Distinct : List (List ℕ × ℕ) → Type 0
Distinct [] = Unit
Distinct ((k, h) ∷ m) = (find k m ≡ none) × Distinct m

is_same_trans : (j k i : List ℕ) → is_same j k ≡ true → is_same j i ≡ is_same k i
is_same_trans j k i h = ap (λ s. is_same s i) (is_same-eq j k h)

same_branch :
    (b : Bool) (x y z : Option ℕ) → (if b then x else y) ≡ (if b then x else (if b then z else y))
same_branch true x y z = refl
same_branch false x y z = refl

find-assign :
    (k i : List ℕ) (h : ℕ) (m : List (List ℕ × ℕ))
    → find i (assign k h m) ≡ (if is_same k i then some h else find i m)
unfolding find assign
find-assign k i h [] = refl
find-assign k i h ((j, g) ∷ m) = elim (Bool-cases (is_same j k)) [
  | inl e ↦ rw e rw (is_same_trans j k i e) (same_branch (is_same k i) (some h) (find i m) (some g))
  | inr e ↦ rw e (elim (Bool-cases (is_same j i)) [
    | inl f ↦ elim (Bool-cases (is_same k i)) [
      | inl p ↦ absurd (true≢false (sym f ∙ sym (ap (is_same j) (is_same-eq k i p)) ∙ e))
      | inr p ↦ rw f rw p refl
    ]
    | inr f ↦ rw f (find-assign k i h m)
  ])
]

-- The paths that are registered with a service, over those that it has
abbrev over : Option ℕ → Option ℕ → Option ℕ
over none o = o
over (some h) o = some h

over_if :
    (b : Bool) (h : ℕ) (a o : Option ℕ)
    → (b ≡ true → a ≡ none)
    → over a (if b then some h else o) ≡ over (if b then some h else a) o
over_if true h a o e = rw (e refl) refl
over_if false h a o e = refl

find-register_all :
    (i : List ℕ) (m : List (List ℕ × ℕ)) (hs : Service)
    → Distinct m
    → find i (register_all m hs).callbacks ≡ over (find i m) (find i hs.callbacks)
unfolding register_all find register_handler
find-register_all i [] hs d = refl
find-register_all i ((k, h) ∷ m) hs (free, d) =
    find-register_all i m (EvhttpService.register_handler k h hs) d
    ∙ ap (over (find i m)) (find-assign k i h hs.callbacks)
    ∙ over_if (is_same k i) h (find i m) (find i hs.callbacks)
        (λ p. sym (ap (λ j. find j m) (is_same-eq k i p)) ∙ free)

default-register_all :
    (m : List (List ℕ × ℕ)) (hs : Service)
    → (register_all m hs).default_callback ≡ hs.default_callback
unfolding register_all register_handler
default-register_all [] hs = refl
default-register_all ((k, h) ∷ m) hs =
    default-register_all m (EvhttpService.register_handler k h hs)

find-register_default :
    (d : Option ℕ) (i : List ℕ) (hs : Service)
    → find i (register_default d hs).callbacks ≡ find i hs.callbacks
unfolding register_default register_default_handler
find-register_default none i hs = refl
find-register_default (some h) i hs = refl

default-register_default :
    (d : Option ℕ) (hs : Service)
    → hs.default_callback ≡ none
    → (register_default d hs).default_callback ≡ d
unfolding register_default register_default_handler
default-register_default none hs e = e
default-register_default (some h) hs e = refl

over-none : (a : Option ℕ) → over a none ≡ a
over-none none = refl
over-none (some h) = refl

-- A service that has no handlers yet, as after `Init`
pub record IsFresh (hs : Service) : Type 0 where
  pub no_callbacks : hs.callbacks ≡ []
  pub no_default : hs.default_callback ≡ none

handle-started :
    (uri : List ℕ) (s : HttpServer) (t : ListenThread)
    → Distinct s.callbacks
    → IsFresh t.hservice
    → handle_request uri (started s t).hservice ≡ found s.default_callback (find uri s.callbacks)
unfolding handle_request find
handle-started uri s t d f =
    ap₂ found
      (default-register_default s.default_callback (register_all s.callbacks t.hservice)
        (default-register_all s.callbacks t.hservice ∙ f.no_default))
      (find-register_default s.default_callback uri (register_all s.callbacks t.hservice)
        ∙ find-register_all uri s.callbacks t.hservice d
        ∙ ap (λ m. over (find uri s.callbacks) (find uri m)) f.no_callbacks
        ∙ over-none (find uri s.callbacks))

send-answer :
    (r : List ℕ × ℕ) (hs : Service)
    → hs.evhttp ≡ true
    → send_reply true r.0 r.1 hs ≡ some (answer r)
unfolding send_reply send_in_loop
send-answer ([], code) hs e = rw e refl
send-answer (c ∷ text, code) hs e = rw e refl

-- The server runs in the listening thread and in the worker.
worked-running :
    (send : Option ℕ → Option Reply) (loop hash h : ℕ) (s s' : HttpServer)
    → s.status ≡ running
    → s'.status ≡ running
    → worked send h s' (dispatch loop hash s).0 ≡ send (some h)
unfolding dispatch in_worker
worked-running send loop hash h s s' r r' = rw r rw r' refl

module _ (user : ℕ → List ℕ × ℕ) (loop hash : ℕ) (s s' : HttpServer) (hs : Service)
    (runs : s.status ≡ running) (runs' : s'.status ≡ running) (alive : hs.evhttp ≡ true) where
  handler-answer :
      (h : ℕ) → worked (sent user true hs) h s' (dispatch loop hash s).0 ≡ some (answer (user h))
  handler-answer h =
      worked-running (sent user true hs) loop hash h s s' runs runs' ∙ send-answer (user h) hs alive

  default-answer :
      (d : Option ℕ)
      → handled (sent user true hs) loop hash s s' (default_handle_request d)
        ≡ some (answer_default user d)
  unfolding default_handle_request
  default-answer none = refl
  default-answer (some h) = handler-answer h

  found-answer :
      (d o : Option ℕ)
      → handled (sent user true hs) loop hash s s' (found d o) ≡ some (answer_found user d o)
  found-answer d none = default-answer d
  found-answer d (some h) = handler-answer h

-- While the server runs, a request gets one reply, whatever loop works on it: with the text and the
-- code of the handler that was registered with the server for its path before Start, else of the
-- default handler, or 404 if that gives no text, and 400 if there is neither handler.
pub serve-answer :
    (user : ℕ → List ℕ × ℕ) (uri : List ℕ) (loop hash : ℕ) (base s s' : HttpServer)
    (t : ListenThread) (hs : Service)
    → Distinct base.callbacks
    → IsFresh t.hservice
    → s.status ≡ running
    → s'.status ≡ running
    → hs.evhttp ≡ true
    → serve user uri true loop hash (started base t).hservice s s' hs
      ≡ some (answer_found user base.default_callback (find uri base.callbacks))
unfolding serve
serve-answer user uri loop hash base s s' t hs d f runs runs' alive =
    ap (handled (sent user true hs) loop hash s s') (handle-started uri base t d f)
    ∙ found-answer user loop hash s s' hs runs runs' alive base.default_callback
        (find uri base.callbacks)

unanswered :
    (send : Option ℕ → Option Reply) (loop hash h : ℕ) (s s' : HttpServer)
    → is_running s.status ≡ false
    → worked send h s' (dispatch loop hash s).0 ≡ none
unfolding dispatch
unanswered send loop hash h s s' e = rw e refl

-- A request for a handler gets no reply at all, not even an error, if the server does not run when it
-- comes, as before Start has stored kRunning although the listening threads work, or during Stop.
pub serve-unanswered :
    (user : ℕ → List ℕ × ℕ) (uri : List ℕ) (loop_running : Bool) (loop hash h : ℕ)
    (base s s' : HttpServer) (t : ListenThread) (hs : Service)
    → Distinct base.callbacks
    → IsFresh t.hservice
    → find uri base.callbacks ≡ some h
    → is_running s.status ≡ false
    → serve user uri loop_running loop hash (started base t).hservice s s' hs ≡ none
unfolding serve
serve-unanswered user uri loop_running loop hash h base s s' t hs d f e stops =
    ap (handled (sent user loop_running hs) loop hash s s')
      (handle-started uri base t d f ∙ ap (found base.default_callback) e)
    ∙ unanswered (sent user loop_running hs) loop hash h s s' stops
