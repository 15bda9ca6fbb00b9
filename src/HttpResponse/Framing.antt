-- ===== src/HttpResponse/Framing.antt =====
-- evpp/evpphttp/http_response.cc: how a client finds the end of a response.
use evpp.Base.{
  ℕ, ◌≡◌, refl, sym, ap, ◌∙◌, ◌⊎◌, inl, inr, true, false, not, ◌&&◌, ◌||◌, List, [], ◌++◌,
  append_assoc, append-nil, ◌==◌, leb, is_none, if◌then◌else◌, Bool-cases, subst,
}
use evpp.Base.Dictionary.{codes, lookup}
use evpp.HttpResponse.{
  HttpResponse, crlf, http_status_code, status_entry, status_line, add_content_len, is_chunked,
  fields_text, need_body, connection, version_fields, make_http_response,
}

-- The server closes the connection behind the response, or the body is chunked, or the header has
-- its length.
abbrev pub IsDelimited : ℕ → List ℕ × HttpResponse → Type 0
IsDelimited size (head, r) =
    (r.close ≡ true)
    ⊎ ((r.chunked ≡ true)
        ⊎ ((before : List ℕ) × (after : List ℕ) × (head ≡ before ++ add_content_len size ++ after)))

connection-IsDelimited : (size : ℕ) (r : HttpResponse) → IsDelimited size (connection size r)
unfolding connection
connection-IsDelimited size r =
    close_or_not (Bool-cases (r.close || (r.http_minor == 0 && not r.keep_alive)))
      (Bool-cases r.chunked)
  where
    close_or_not :
        (r.close || (r.http_minor == 0 && not r.keep_alive)) ≡ true
          ⊎ ((r.close || (r.http_minor == 0 && not r.keep_alive)) ≡ false)
        → (r.chunked ≡ true) ⊎ (r.chunked ≡ false)
        → IsDelimited size (connection size r)
    close_or_not (inl e) c = rw e (inl refl)
    close_or_not (inr e) (inl c) = rw e (inr (inl c))
    close_or_not (inr e) (inr c) =
        rw e rw c (inr (inr ([], [], sym (append-nil (add_content_len size)))))

-- More text around it.
around :
    (size : ℕ) (s t head : List ℕ) (r : HttpResponse)
    → IsDelimited size (head, r)
    → IsDelimited size (s ++ head ++ t, r)
around size s t head r (inl e) = inl e
around size s t head r (inr (inl e)) = inr (inl e)
around size s t head r (inr (inr (a, b, e))) =
    inr (inr (s ++ a, b ++ t, ap (λ h. s ++ h ++ t) e ∙ simp append_assoc))

version-IsDelimited :
    (date : List ℕ) (size : ℕ) (fields : List (List ℕ × List ℕ)) (r : HttpResponse)
    → (r.http_major == 1) ≡ true
    → IsDelimited size (version_fields date size fields r)
unfolding version_fields
version-IsDelimited date size fields r e =
    let d : List ℕ =
      if leb 1 r.http_minor && is_none (lookup (codes "Date") fields) then date else [] in
    let r' : HttpResponse = record r { chunked = r.chunked || is_chunked fields } in
    rw e (
      subst (λ h. IsDelimited size (h, (connection size r').1))
        (append-nil (d ++ (connection size r').0))
        (around size d [] (connection size r').0 (connection size r').1
          (connection-IsDelimited size r')))

-- Of a response of version 1 the client can always tell where the body ends.
pub make_http_response-IsDelimited :
    (date : List ℕ) (code size : ℕ) (fields : List (List ℕ × List ℕ)) (r : HttpResponse)
    → r.http_major ≡ 1
    → IsDelimited size (make_http_response date code size fields r)
unfolding make_http_response
make_http_response-IsDelimited date code size fields r e = elim (Bool-cases (code == 400)) [
  | inl bad ↦ rw bad (inl refl)
  | inr ok ↦ rw ok (
      subst (λ h. IsDelimited size (h, (version_fields date size fields r).1)) (simp append_assoc)
        (around size (status_line (status_entry code http_status_code) r ++ crlf)
          ((if need_body code && is_none (lookup (codes "Content-Type") fields)
              then codes "Content-Type:text/html; charset=ISO-8859-1" ++ crlf
              else [])
            ++ fields_text fields
            ++ crlf)
          (version_fields date size fields r).0 (version_fields date size fields r).1
          (version-IsDelimited date size fields r (ap (λ m. m == 1) e))))
]
