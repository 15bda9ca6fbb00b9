-- ===== src/EvhttpService.antt =====
-- evpp/http/service.cc, without SSL: a service that listens, and the replies to its requests. A
-- handler is known by a number; what evhttp returns is an argument.
use evpp.Base.{ℕ, Bool, true, false, List, [], ◌∷◌, Option, none, some, ◌==◌, if◌then◌else◌, ltb}
use evpp.Base.Dictionary.{codes, is_same}

-- `find` and `operator[]` of the map of handlers
unfoldable pub find : List ℕ → List (List ℕ × ℕ) → Option ℕ
find k [] = none
find k ((j, h) ∷ m) = let rest = find k m in if is_same j k then some h else rest

unfoldable pub assign : List ℕ → ℕ → List (List ℕ × ℕ) → List (List ℕ × ℕ)
assign k h [] = (k, h) ∷ []
assign k h ((j, i) ∷ m) =
    let rest = assign k h m in if is_same j k then (j, h) ∷ m else (j, i) ∷ rest

-- `g_http_code_string`; `none` is an index behind its end.
pub code_string : ℕ → Option (List ℕ)
code_string code =
    if ltb 1000 code
    then none
    else some (
        if code == 200
        then codes "OK"
        else if code == 302
        then codes "Found"
        else if code == 400
        then codes "Bad Request"
        else if code == 404
        then codes "Not Found"
        else codes "XX")

pub record Service : Type 0 where
  -- `evhttp_` and `evhttp_bound_socket_` are set, and the socket accepts.
  pub evhttp : Bool
  pub bound_socket : Bool
  pub enabled : Bool
  pub callbacks : List (List ℕ × ℕ)
  pub default_callback : Option ℕ

pub new : Service
new = record {
  evhttp = true;
  bound_socket = false;
  enabled = false;
  callbacks = [];
  default_callback = none;
}

-- `Listen`, with whether the port could be bound
unfoldable pub listen : Bool → Service → Bool × Service
listen ok s = if ok then (true, record s { bound_socket = true; enabled = true }) else (false, s)

pub stop : Service → Service
stop s = record s {
  evhttp = false;
  bound_socket = false;
  enabled = false;
  callbacks = [];
  default_callback = none;
}

pub pause : Service → Service
pause s = if s.bound_socket then record s { enabled = false } else s

-- `Continue`
pub resume : Service → Service
resume s = if s.bound_socket then record s { enabled = true } else s

unfoldable pub register_handler : List ℕ → ℕ → Service → Service
register_handler uri h s = record s { callbacks = assign uri h s.callbacks }

unfoldable pub register_default_handler : ℕ → Service → Service
register_default_handler h s = record s { default_callback = some h }

-- The arguments of `evhttp_send_reply`
pub record Reply : Type 0 where
  pub code : ℕ
  pub reason : Option (List ℕ)
  pub text : Option (List ℕ)

abbrev pub reply : ℕ → Option (List ℕ) → Reply
reply code text = record { code = code; reason = code_string code; text = text }

-- What becomes of a request in the listening thread: a handler is called, or evhttp replies.
pub data Handling : Type 0 where
  calls : ℕ → Handling
  replies : Reply → Handling

-- `DefaultHandleRequest`
unfoldable pub default_handle_request : Option ℕ → Handling
default_handle_request none = replies (reply 400 none)
default_handle_request (some h) = calls h

abbrev pub found : Option ℕ → Option ℕ → Handling
found d none = default_handle_request d
found d (some h) = calls h

-- `HandleRequest`; an empty map has no entry for the path either.
unfoldable pub handle_request : List ℕ → Service → Handling
handle_request uri s = found s.default_callback (find uri s.callbacks)

-- The task that `SendReply` gives to the listening thread, for the text and the code of a response
unfoldable pub send_in_loop : List ℕ → ℕ → Service → Option Reply
send_in_loop [] code s = if s.evhttp then some (reply 404 none) else none
send_in_loop (c ∷ text) code s = if s.evhttp then some (reply code (some (c ∷ text))) else none

-- `SendReply`, with whether the listening loop runs; the task meets the service as it is by then.
unfoldable pub send_reply : Bool → List ℕ → ℕ → Service → Option Reply
send_reply loop_running text code s = if loop_running then send_in_loop text code s else none
