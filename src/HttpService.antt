-- ===== src/HttpService.antt =====
-- evpp/evpphttp/service.cc: the requests on a connection. `up` is its `IsConnected`; `parse_url`,
-- `execute` and `version` are the parser's, `date` is what `add_date` appends.
pub mod Pipeline
mod Tests
use evpp.Base.{
  ℕ, zero, suc, Bool, true, false, not, List, [], ◌∷◌, ◌++◌, map, Option, none, some, ◌&&◌,
  if◌then◌else◌, ◌>>=◌, is_none, length,
}
use evpp.Base.Dictionary.{codes, is_same, to_lower, lookup}
use evpp.HttpRequest.{HttpRequest, UrlParts, Executed, parse, url_path}
use evpp.HttpRequest
use evpp.HttpResponse.{HttpResponse, Output, send_reply}
use evpp.HttpResponse

-- -1, 0 and 1
pub data Ret : Type 0 where
  failed handled incomplete : Ret

pub data Effect : Type 0 where
  -- The handler of a path, or the default one, with the response that it answers by.
  calls_handler : List ℕ → HttpRequest → HttpResponse → Effect
  calls_default : HttpRequest → HttpResponse → Effect
  outputs : Output → Effect

pub record Handled : Type 0 where
  pub ret : Ret
  pub buf : List ℕ
  pub request : HttpRequest
  pub effects : List Effect

-- The context of the connection, the buffer, and what was done.
pub record Served : Type 0 where
  pub context : Option HttpRequest
  pub buf : List ℕ
  pub effects : List Effect

abbrev pub is_registered : List ℕ → List (List ℕ) → Bool
is_registered path [] = false
is_registered path (uri ∷ uris) = if is_same uri path then true else is_registered path uris

-- `RegisterHandler`
pub register_handler : List ℕ → List (List ℕ) → List (List ℕ)
register_handler uri callbacks = if is_registered uri callbacks then callbacks else uri ∷ callbacks

abbrev pub then_do : List Effect → Option Served → Option Served
then_do es none = none
then_do es (some s) = some (record s { effects = es ++ s.effects })

module _ (parse_url : List ℕ → UrlParts) (execute : List ℕ → List ℕ → Executed)
    (version : List ℕ → ℕ × ℕ) (date : List ℕ) (callbacks : List (List ℕ)) (up : Bool) where
  -- `HttpResponse resp(hr)`
  abbrev pub response : HttpRequest → HttpResponse
  response hr = HttpResponse.new (version hr.parser).0 (version hr.parser).1 hr.field_value

  abbrev pub reply : ℕ → HttpRequest → List Effect
  reply code hr = map outputs (send_reply date up code [] [] (response hr)).0

  abbrev pub called : List ℕ → HttpRequest → Effect
  called path hr =
      if is_registered path callbacks
      then calls_handler path hr (response hr)
      else calls_default hr (response hr)

  -- The test of the field "Expect": `first` is the name of the field.
  abbrev pub expects_continue : HttpRequest → Bool
  expects_continue hr =
      not (is_none (lookup (codes "Expect") hr.field_value))
      && (not hr.send_continue
          && not (is_same (map to_lower (codes "Expect")) (codes "100-continue")))

  abbrev pub completed : List ℕ → HttpRequest → Option Handled
  completed buf hr = url_path hr >>= λ path.
      some (record { ret = handled; buf = buf; request = hr; effects = called path hr ∷ [] })

  abbrev pub continued : HttpRequest → HttpRequest
  continued hr = if expects_continue hr then record hr { send_continue = true } else hr

  abbrev pub not_completed : List ℕ → HttpRequest → Handled
  not_completed buf hr = record {
    ret = incomplete;
    buf = buf;
    request = continued hr;
    effects = if expects_continue hr then reply 100 hr else [];
  }

  abbrev pub parsed : Bool × List ℕ × HttpRequest → Option Handled
  parsed (false, buf, hr) =
      some (record { ret = failed; buf = buf; request = hr; effects = reply 400 hr })
  parsed (true, buf, hr) = if hr.is_completed then completed buf hr else some (not_completed buf hr)

  -- `RequestHandler`
  pub request_handler : List ℕ → HttpRequest → Option Handled
  request_handler buf hr = parsed (parse parse_url execute buf hr)

  -- A new request, as the loop of `OnMessage` makes it.
  abbrev pub fresh : List ℕ → HttpRequest
  fresh remote_addr = record HttpRequest.new { remote_ip = remote_addr }

  -- The loop of `OnMessage` goes on, or ends.
  abbrev pub go_on : (List ℕ → Option Served) → Handled → Option Served
  go_on more h = elim h.ret [
    | failed ↦ some (record { context = none; buf = h.buf; effects = h.effects })
    | handled ↦ then_do h.effects (more h.buf)
    | incomplete ↦ some (record { context = some h.request; buf = h.buf; effects = h.effects })
  ]

  -- The loop of `OnMessage`
  pub serve : ℕ → List ℕ → List ℕ → Option Served
  serve fuel remote_addr [] = some (record { context = none; buf = []; effects = [] })
  serve zero remote_addr (c ∷ s) = none
  serve (suc fuel) remote_addr (c ∷ s) =
      request_handler (c ∷ s) (fresh remote_addr) >>= λ h. go_on (serve fuel remote_addr) h

  -- A request that waited in the context
  abbrev pub resumed : (List ℕ → Option Served) → Handled → Option Served
  resumed more h = elim h.ret [
    | failed ↦ some (record { context = some h.request; buf = h.buf; effects = h.effects })
    | handled ↦ then_do h.effects (more h.buf)
    | incomplete ↦ some (record { context = some h.request; buf = h.buf; effects = h.effects })
  ]

  -- `OnMessage`
  pub on_message : List ℕ → Option HttpRequest → List ℕ → Option Served
  on_message remote_addr none buf = serve (length buf) remote_addr buf
  on_message remote_addr (some hr) buf =
      request_handler buf hr >>= λ h. resumed (λ rest. serve (length rest) remote_addr rest) h
