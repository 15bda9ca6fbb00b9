-- ===== src/HttpService/Tests.antt =====
-- Each theorem about evpp/evpphttp/service.cc with a parser of its own, of which every byte is the
-- path of a whole request, but a dot, which is a request that goes on.
use mathlib.Core.Bool.{true≢false}
use evpp.Base.{
  ℕ, ◌<◌, ◌≡◌, refl, sym, ap, ◌∙◌, Bool, true, false, List, [], ◌∷◌, ◌++◌, length, none, some, ◌==◌,
  if◌then◌else◌, arith, inl, inr, Bool-cases, subst,
}
use evpp.HttpRequest.{
  HttpRequest, UrlParts, Executed, url_data, headers_complete, message_complete, parse_ok,
  parse_paused, parse, retrieved, on_calls, on_call, url_path,
}
use evpp.HttpService.{not_completed, on_message, fresh}
use evpp.HttpService.Pipeline.{Message, calls_of, flat, MakesProgress, on_message-pipelined}

abbrev parse_url : List ℕ → UrlParts
parse_url u = record { path = some (0, length u); query = none; fragment = none; userinfo = none }

abbrev execute : List ℕ → List ℕ → Executed
execute had [] = record { calls = []; errno = parse_ok; parsed = 0 }
execute had (c ∷ s) =
    if c == b'.'
    then record { calls = url_data (c ∷ s) ∷ []; errno = parse_ok; parsed = length (c ∷ s) }
    else record {
      calls = url_data (c ∷ []) ∷ headers_complete ∷ message_complete ∷ [];
      errno = parse_paused;
      parsed = 1;
    }

abbrev version : List ℕ → ℕ × ℕ
version s = (1, 1)

abbrev uris : List (List ℕ)
uris = (b'a' ∷ []) ∷ []

-- The request for the path of a byte.
abbrev request_for : ℕ → HttpRequest
request_for c = record (fresh parse_url execute version [] uris true []) {
  parser = c ∷ [];
  url = c ∷ [];
  is_completed = true;
  parts = some (parse_url (c ∷ []));
}

abbrev two : List Message
two =
    record { first = b'a'; others = []; request = request_for b'a'; path = b'a' ∷ [] }
    ∷ record { first = b'b'; others = []; request = request_for b'b'; path = b'b' ∷ [] }
    ∷ []

abbrev going_on : HttpRequest
going_on = record (fresh parse_url execute version [] uris true []) {
  parser = b'.' ∷ [];
  url = b'.' ∷ [];
}

on_message-pipelined_example :
    (on_message parse_url execute version [] uris true [] none (flat two (b'.' ∷ []))
      ≡ some (record {
        context = some (not_completed parse_url execute version [] uris true [] going_on).request;
        buf = [];
        effects =
            calls_of parse_url execute version [] uris true [] two
            ++ (not_completed parse_url execute version [] uris true [] going_on).effects;
      }))
    × (on_message parse_url execute version [] uris true [] none (flat two [])
        ≡ some (record {
          context = none;
          buf = [];
          effects = calls_of parse_url execute version [] uris true [] two;
        }))
unfolding parse retrieved on_calls on_call url_path
on_message-pipelined_example =
    on_message-pipelined parse_url execute version [] uris true [] two b'.' [] going_on
      ((λ rest. refl, refl, refl), ((λ rest. refl, refl, refl), tt)) refl refl

at_dot :
    (b : ℕ) (s : List ℕ)
    → (b == b'.') ≡ true
    → (parse parse_url execute
        (b ∷ s)
        (fresh parse_url execute version [] uris true [])).2.is_completed
      ≡ false
unfolding parse retrieved on_calls on_call
at_dot b s dot = rw dot refl

at_path :
    (b : ℕ) (s : List ℕ)
    → (b == b'.') ≡ false
    → parse parse_url execute (b ∷ s) (fresh parse_url execute version [] uris true [])
      ≡ (true, s, request_for b)
unfolding parse retrieved on_calls on_call
at_path b s no_dot = rw no_dot refl

makes_progress : MakesProgress parse_url execute version [] uris true []
unfolding parse retrieved on_calls on_call url_path
makes_progress [] rest hr e c =
    absurd (true≢false (sym c ∙ sym (ap (λ (q : Bool × List ℕ × HttpRequest). q.2.is_completed) e)))
makes_progress (b ∷ s) rest hr e c = elim (Bool-cases (b == b'.')) [
  | inl dot ↦ absurd (
      true≢false (
        sym c
        ∙ sym (ap (λ (q : Bool × List ℕ × HttpRequest). q.2.is_completed) e)
        ∙ at_dot b s dot))
  | inr no_dot ↦
      let same = sym (at_path b s no_dot) ∙ e in
      (
        subst (λ t. length t < length (b ∷ s)) (ap (λ (q : Bool × List ℕ × HttpRequest). q.1) same)
            (omega arith),
        (b ∷ [], ap (λ (q : Bool × List ℕ × HttpRequest). url_path q.2) (sym same)),
      )
]
