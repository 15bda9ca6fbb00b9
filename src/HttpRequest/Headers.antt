-- ===== src/HttpRequest/Headers.antt =====
-- evpp/evpphttp/http_request.h: the fields of a request, however the parser cuts them up.
use evpp.Base.{ℕ, ◌≡◌, refl, ap, ◌∙◌, false, List, [], ◌∷◌, ◌++◌, map, append_assoc, ◌==◌}
use evpp.Base.Dictionary.{insert}
use evpp.HttpRequest.{
  Call, field_data, value_data, HttpRequest, UrlParts, on_field, on_value, stored, on_call,
  on_calls,
}

-- A field as the parser delivers it: parts of the name while its state is `s_header_field`, 51, the
-- rest of it with `s_header_value_start`, 52; parts of the value with `s_header_value`, 53, and the
-- rest of it with `s_header_almost_done`, 55.
pub record Field : Type 0 where
  pub name_parts : List (List ℕ)
  pub name_end : List ℕ
  pub value_parts : List (List ℕ)
  pub value_end : List ℕ

abbrev pub joined : List (List ℕ) → List ℕ → List ℕ
joined [] e = e
joined (p ∷ ps) e = p ++ joined ps e

abbrev pub delivered : List Field → List Call
delivered [] = []
delivered (f ∷ fs) =
    map (field_data 51) f.name_parts
    ++ (field_data 52 f.name_end
        ∷ (map (value_data 53) f.value_parts ++ (value_data 55 f.value_end ∷ delivered fs)))

abbrev pub insert_all : List Field → List (List ℕ × List ℕ) → List (List ℕ × List ℕ)
insert_all [] m = m
insert_all (f ∷ fs) m =
    insert_all fs (insert (joined f.name_parts f.name_end) (joined f.value_parts f.value_end) m)

module _ (parse_url : List ℕ → UrlParts) where
  name-open :
      (ps : List (List ℕ)) (e : List ℕ) (rest : List Call) (hr : HttpRequest)
      → hr.pre_state ≡ 51
      → on_calls parse_url (map (field_data 51) ps ++ field_data 52 e ∷ rest) hr
        ≡ on_calls parse_url rest (record hr { field = hr.field ++ joined ps e; pre_state = 52 })
  unfolding on_calls on_call on_field
  name-open [] e rest hr s = rw s refl
  name-open (p ∷ ps) e rest hr s = rw s (
      name-open ps e rest (record hr { field = hr.field ++ p; pre_state = 51 }) refl
      ∙ ap (λ t. on_calls parse_url rest (record hr { field = t; pre_state = 52 }))
          (append_assoc hr.field p (joined ps e)))

  name-delivered :
      (ps : List (List ℕ)) (e : List ℕ) (rest : List Call) (hr : HttpRequest)
      → (hr.pre_state == 51) ≡ false
      → on_calls parse_url (map (field_data 51) ps ++ field_data 52 e ∷ rest) hr
        ≡ on_calls parse_url rest (record hr { field = joined ps e; pre_state = 52 })
  unfolding on_calls on_call on_field
  name-delivered [] e rest hr s = rw s refl
  name-delivered (p ∷ ps) e rest hr s =
      rw (s, on_calls) (name-open ps e rest (record hr { field = p; pre_state = 51 }) refl)

  -- The request behind a whole field.
  abbrev pub kept : List ℕ → HttpRequest → HttpRequest
  kept v hr = record hr {
    field_value = insert hr.field v hr.field_value;
    field = [];
    value = [];
    pre_state = 55;
  }

  value-open :
      (ps : List (List ℕ)) (e : List ℕ) (rest : List Call) (hr : HttpRequest)
      → hr.pre_state ≡ 53
      → on_calls parse_url (map (value_data 53) ps ++ value_data 55 e ∷ rest) hr
        ≡ on_calls parse_url rest (kept (hr.value ++ joined ps e) hr)
  unfolding on_calls on_call on_value stored
  value-open [] e rest hr s = rw s refl
  value-open (p ∷ ps) e rest hr s = rw s (
      value-open ps e rest (record hr { value = hr.value ++ p; pre_state = 53 }) refl
      ∙ ap (λ t. on_calls parse_url rest (kept t hr)) (append_assoc hr.value p (joined ps e)))

  value-delivered :
      (ps : List (List ℕ)) (e : List ℕ) (rest : List Call) (hr : HttpRequest)
      → (hr.pre_state == 53) ≡ false
      → on_calls parse_url (map (value_data 53) ps ++ value_data 55 e ∷ rest) hr
        ≡ on_calls parse_url rest (kept (joined ps e) hr)
  unfolding on_calls on_call on_value stored
  value-delivered [] e rest hr s = rw s refl
  value-delivered (p ∷ ps) e rest hr s =
      rw (s, on_calls) (value-open ps e rest (record hr { value = p; pre_state = 53 }) refl)

  -- Wherever the ends of the buffers cut names and values, the table of fields is the one with the
  -- whole fields inserted in order.
  pub on_calls-delivered :
      (fs : List Field) (hr : HttpRequest)
      → (hr.pre_state == 51) ≡ false
      → (on_calls parse_url (delivered fs) hr).field_value ≡ insert_all fs hr.field_value
  unfolding on_calls
  on_calls-delivered [] hr s = refl
  on_calls-delivered (f ∷ fs) hr s =
      ap (λ (r : HttpRequest). r.field_value)
        (name-delivered f.name_parts f.name_end
            (map (value_data 53) f.value_parts ++ value_data 55 f.value_end ∷ delivered fs) hr s
          ∙ value-delivered f.value_parts f.value_end (delivered fs)
              (record hr { field = joined f.name_parts f.name_end; pre_state = 52 }) refl)
      ∙ on_calls-delivered fs
          (kept (joined f.value_parts f.value_end)
            (record hr { field = joined f.name_parts f.name_end; pre_state = 52 }))
          refl

  -- What the parser delivers of a field whose value goes on in the next line, after a space:
  -- the space with `s_header_value_start`, then the continuation.
  abbrev pub folded : Field → List ℕ → List Call
  folded f more =
      map (field_data 51) f.name_parts
      ++ (field_data 52 f.name_end
          ∷ (map (value_data 53) f.value_parts
              ++ (value_data 55 f.value_end ∷ value_data 52 (b' ' ∷ []) ∷ value_data 55 more ∷ [])))

  -- The continuation of a folded value is not appended to it: it is stored as the value of the field
  -- without a name.
  pub on_calls-folded :
      (f : Field) (more : List ℕ) (hr : HttpRequest)
      → (hr.pre_state == 51) ≡ false
      → (on_calls parse_url (folded f more) hr).field_value
        ≡ insert [] more (
            insert
              (joined f.name_parts f.name_end)
              (joined f.value_parts f.value_end)
              hr.field_value)
  unfolding on_calls on_call on_value stored
  on_calls-folded f more hr s =
      ap (λ (r : HttpRequest). r.field_value)
        (name-delivered f.name_parts f.name_end
            (map (value_data 53) f.value_parts
              ++ (value_data 55 f.value_end ∷ value_data 52 (b' ' ∷ []) ∷ value_data 55 more ∷ []))
            hr s
          ∙ value-delivered f.value_parts f.value_end
              (value_data 52 (b' ' ∷ []) ∷ value_data 55 more ∷ [])
              (record hr { field = joined f.name_parts f.name_end; pre_state = 52 }) refl)
