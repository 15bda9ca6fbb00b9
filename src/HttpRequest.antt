-- ===== src/HttpRequest.antt =====
-- evpp/evpphttp/http_request.h and http_request.cc. The parser is a library: `execute` says what
-- `http_parser_execute` does with some bytes after those it has had since `http_parser_init`.
pub mod Headers
mod Tests
use evpp.Base.{
  ℕ, ◌+◌, Bool, true, false, List, [], ◌∷◌, ◌++◌, Option, none, some, ◌==◌, if◌then◌else◌, ◌>>=◌,
  length, take, drop, leb,
}
use evpp.Base.Dictionary.{insert}

-- The callbacks of the parser, with its state where the request reads it.
pub data Call : Type 0 where
  url_data body_data : List ℕ → Call
  field_data value_data : ℕ → List ℕ → Call
  headers_complete message_complete : Call

pub data ParseError : Type 0 where
  parse_ok parse_paused : ParseError
  parse_error : ℕ → ParseError

pub record Executed : Type 0 where
  pub calls : List Call
  pub errno : ParseError
  pub parsed : ℕ

-- Offset and length of the parts of a URL that `http_parser_parse_url` has found.
pub record UrlParts : Type 0 where
  pub path : Option (ℕ × ℕ)
  pub query : Option (ℕ × ℕ)
  pub fragment : Option (ℕ × ℕ)
  pub userinfo : Option (ℕ × ℕ)

pub record HttpRequest : Type 0 where
  pub body : List ℕ
  pub field_value : List (List ℕ × List ℕ)
  -- What the parser has consumed.
  pub parser : List ℕ
  pub remote_ip : List ℕ
  pub field : List ℕ
  pub value : List ℕ
  pub url : List ℕ
  pub pre_state : ℕ
  pub is_completed : Bool
  pub send_continue : Bool
  -- `none` is uninitialised.
  pub parts : Option UrlParts

abbrev pub new : HttpRequest
new = record {
  body = [];
  field_value = [];
  parser = [];
  remote_ip = [];
  field = [];
  value = [];
  url = [];
  pre_state = 0;
  is_completed = false;
  send_continue = false;
  parts = none;
}

-- `std::string(url, off, len)`; `none` is an offset behind the end, which throws.
abbrev pub substring : List ℕ → Option (ℕ × ℕ) → Option (List ℕ)
substring s none = some []
substring s (some (off, len)) = if leb off (length s) then some (take len (drop off s)) else none

-- `url_path`
unfoldable pub url_path : HttpRequest → Option (List ℕ)
url_path hr = hr.parts >>= λ u. substring hr.url u.path

-- `url_query`
url_query : HttpRequest → Option (List ℕ)
url_query hr = hr.parts >>= λ u. substring hr.url u.query

-- `url_fragment`
url_fragment : HttpRequest → Option (List ℕ)
url_fragment hr = hr.parts >>= λ u. substring hr.url u.fragment

-- `url_userinfo`
url_userinfo : HttpRequest → Option (List ℕ)
url_userinfo hr = hr.parts >>= λ u. substring hr.url u.userinfo

-- `OnField`
pub on_field : ℕ → List ℕ → HttpRequest → HttpRequest
on_field state buf hr = record hr {
  field = if hr.pre_state == 51 then hr.field ++ buf else buf;
  pre_state = state;
}

-- The end of `OnValue`, with the value as it is now
stored : ℕ → List ℕ → HttpRequest → HttpRequest
stored state v hr =
    if state == 55
    then record hr {
      field_value = insert hr.field v hr.field_value;
      field = [];
      value = [];
      pre_state = state;
    }
    else record hr { value = v; pre_state = state }

-- `OnValue`
pub on_value : ℕ → List ℕ → HttpRequest → HttpRequest
on_value state buf hr = stored state (if hr.pre_state == 53 then hr.value ++ buf else buf) hr

module _ (parse_url : List ℕ → UrlParts) where
  unfoldable pub on_call : Call → HttpRequest → HttpRequest
  on_call (url_data buf) hr = record hr { url = hr.url ++ buf }
  on_call (body_data buf) hr = record hr { body = hr.body ++ buf }
  on_call (field_data state buf) hr = on_field state buf hr
  on_call (value_data state buf) hr = on_value state buf hr
  on_call headers_complete hr = record hr { parts = some (parse_url hr.url) }
  on_call message_complete hr = record hr { is_completed = true }

  unfoldable pub on_calls : List Call → HttpRequest → HttpRequest
  on_calls [] hr = hr
  on_calls (c ∷ cs) hr = on_calls cs (on_call c hr)

  -- The rest of `Parse`: the request, what is left of the buffer, and whether 0 is returned.
  unfoldable pub retrieved : Executed → List ℕ → HttpRequest → Bool × List ℕ × HttpRequest
  retrieved e buf hr = elim e.errno [
    | parse_error n ↦ (false, buf, hr)
    | parse_ok ↦ (true, drop e.parsed buf, hr)
    | parse_paused ↦ (true, drop e.parsed buf, hr)
  ]

  module _ (execute : List ℕ → List ℕ → Executed) where
    -- `Parse`
    unfoldable pub parse : List ℕ → HttpRequest → Bool × List ℕ × HttpRequest
    parse buf hr =
        let e : Executed = execute hr.parser buf in
        retrieved e buf (on_calls e.calls (record hr { parser = hr.parser ++ take e.parsed buf }))
