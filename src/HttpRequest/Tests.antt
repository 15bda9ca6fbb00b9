-- ===== src/HttpRequest/Tests.antt =====
-- Each theorem about evpp/evpphttp/http_request.h at a request of its own.
use evpp.Base.{ℕ, ◌≡◌, refl, List, [], ◌∷◌, none}
use evpp.Base.Dictionary.{codes}
use evpp.HttpRequest.{UrlParts, new, on_calls}
use evpp.HttpRequest.Headers.{Field, delivered, insert_all, on_calls-delivered}

abbrev no_url : List ℕ → UrlParts
no_url s = record { path = none; query = none; fragment = none; userinfo = none }

-- "Host: a:80" in one piece and "Accept: */*" in several.
abbrev two_fields : List Field
two_fields =
    record { name_parts = []; name_end = codes "Host"; value_parts = []; value_end = codes "a:80" }
    ∷ record {
      name_parts = codes "Acc" ∷ codes "e" ∷ [];
      name_end = codes "pt";
      value_parts = codes "*/" ∷ [];
      value_end = codes "*";
    }
    ∷ []

on_calls-delivered_example :
    (on_calls no_url (delivered two_fields) new).field_value ≡ insert_all two_fields []
on_calls-delivered_example = on_calls-delivered no_url two_fields new refl

abbrev tag : Field
tag = record { name_parts = []; name_end = codes "Tag"; value_parts = []; value_end = codes "a" }
