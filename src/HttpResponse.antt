-- ===== src/HttpResponse.antt =====
-- evpp/evpphttp/http_response.h and http_response.cc. A buffer is the list of its bytes. `date` is
-- what `add_date` appends; numbers of a response are not negative.
pub mod Chunks
pub mod Framing
mod Tests
use evpp.Base.{
  ℕ, zero, suc, ◌+◌, ◌-◌, ◌/◌, ◌%◌, ◌^◌, Bool, true, false, not, List, [], ◌∷◌, ◌++◌, map, Option,
  none, some, ◌==◌, ◌&&◌, ◌||◌, if◌then◌else◌, is_none, leb, ltb, take, length,
}
use evpp.Base.Decimal.{to_string}
use evpp.Base.Dictionary.{codes, is_same, to_lower, lookup}

pub record HttpResponse : Type 0 where
  pub close : Bool
  pub keep_alive : Bool
  pub chunked : Bool
  pub http_major : ℕ
  pub http_minor : ℕ

abbrev pub crlf : List ℕ
crlf = 13 ∷ 10 ∷ []

abbrev pub http_status_code : List (ℕ × List ℕ)
http_status_code =
    (100, codes "Continue")
    ∷ (101, codes "Switching Protocols")
    ∷ (200, codes "OK")
    ∷ (201, codes "Created")
    ∷ (202, codes "Accepted")
    ∷ (203, codes "Non-Authoritative Information")
    ∷ (204, codes "No Content")
    ∷ (205, codes "Reset Content")
    ∷ (206, codes "Partial Content")
    ∷ (300, codes "Multiple Choices")
    ∷ (301, codes "Moved Permanently")
    ∷ (302, codes "Found")
    ∷ (303, codes "See Other")
    ∷ (304, codes "Not Modified")
    ∷ (305, codes "Use Proxy")
    ∷ (307, codes "Temporary Redirect")
    ∷ (400, codes "Bad Request")
    ∷ (401, codes "Unauthorized")
    ∷ (402, codes "Payment Required")
    ∷ (403, codes "Forbidden")
    ∷ (404, codes "Not Found")
    ∷ (405, codes "Method Not Allowed")
    ∷ (406, codes "Not Acceptable")
    ∷ (407, codes "Proxy Authentication Required")
    ∷ (408, codes "Request Time-out")
    ∷ (409, codes "Conflict")
    ∷ (410, codes "Gone")
    ∷ (411, codes "Length Required")
    ∷ (412, codes "Precondition Failed")
    ∷ (413, codes "Request Entity Too Large")
    ∷ (414, codes "Request-URI Too Large")
    ∷ (415, codes "Unsupported Media Type")
    ∷ (416, codes "Requested range not satisfiable")
    ∷ (417, codes "Expectation Failed")
    ∷ (500, codes "Internal Server Error")
    ∷ (501, codes "Not Implemented")
    ∷ (502, codes "Bad Gateway")
    ∷ (503, codes "Service Unavailable")
    ∷ (504, codes "Gateway Time-out")
    ∷ (505, codes "HTTP Version not supported")
    ∷ (808, codes "UnKnown")
    ∷ []

-- `find`, with the entry of 808 if there is none
pub status_entry : ℕ → List (ℕ × List ℕ) → ℕ × List ℕ
status_entry code [] = (808, codes "UnKnown")
status_entry code ((c, reason) ∷ m) = if c == code then (c, reason) else status_entry code m

-- `is_connection_close` and `is_connection_keep_alive`
pub is_connection : List ℕ → List (List ℕ × List ℕ) → Bool
is_connection key field_value = elim (lookup (codes "Connection") field_value) [
  | none ↦ false
  | some v ↦ is_same (map to_lower v) key
]

pub new : ℕ → ℕ → List (List ℕ × List ℕ) → HttpResponse
new major minor field_value =
    let odd = ltb 9 major || ltb 9 minor in
    record {
      close = is_connection (codes "close") field_value;
      keep_alive = is_connection (codes "keep-alive") field_value;
      chunked = false;
      http_major = if odd then 1 else major;
      http_minor = if odd then 1 else minor;
    }

abbrev pub need_body : ℕ → Bool
need_body code = not (code == 204) && not (code == 304) && (ltb code 100 || leb 200 code)

-- `add_content_len`
abbrev pub add_content_len : ℕ → List ℕ
add_content_len size = codes "Content-Length:" ++ to_string size ++ crlf

-- The status line; `snprintf` writes 15 bytes at most.
pub status_line : ℕ × List ℕ → HttpResponse → List ℕ
status_line (code, reason) r =
    take 15 (
      codes "HTTP/"
      ++ to_string r.http_major
      ++ b'.' ∷ to_string r.http_minor
      ++ b' ' ∷ to_string code
      ++ b' ' ∷ [])
    ++ reason

abbrev pub is_chunked : List (List ℕ × List ℕ) → Bool
is_chunked fields = elim (lookup (codes "Transfer-Encoding") fields) [
  | none ↦ false
  | some v ↦ is_same v (codes "chunked")
]

abbrev pub fields_text : List (List ℕ × List ℕ) → List ℕ
fields_text [] = []
fields_text ((k, v) ∷ m) = k ++ b':' ∷ v ++ crlf ++ fields_text m

-- How the connection goes on, of a response of version 1: the fields that say so, and the response.
pub connection : ℕ → HttpResponse → List ℕ × HttpResponse
connection body_size r =
    if r.close || (r.http_minor == 0 && not r.keep_alive)
    then (codes "Connection:close" ++ crlf, record r { close = true })
    else (if r.chunked then [] else add_content_len body_size, r)

pub version_fields : List ℕ → ℕ → List (List ℕ × List ℕ) → HttpResponse → List ℕ × HttpResponse
version_fields date body_size fields r =
    if r.http_major == 1
    then (
      (if leb 1 r.http_minor && is_none (lookup (codes "Date") fields) then date else [])
          ++ (connection body_size (record r { chunked = r.chunked || is_chunked fields })).0,
      (connection body_size (record r { chunked = r.chunked || is_chunked fields })).1,
    )
    else ([], r)

-- `MakeHttpResponse`
pub make_http_response :
    List ℕ → ℕ → ℕ → List (List ℕ × List ℕ) → HttpResponse → List ℕ × HttpResponse
make_http_response date code body_size fields r =
    let line = status_line (status_entry code http_status_code) r ++ crlf in
    if code == 400 then (line ++ crlf, record r { close = true }) else (
      line
          ++ (version_fields date body_size fields r).0
          ++ (if need_body code && is_none (lookup (codes "Content-Type") fields)
              then codes "Content-Type:text/html; charset=ISO-8859-1" ++ crlf
              else [])
          ++ fields_text fields
          ++ crlf,
      (version_fields date body_size fields r).1,
    )

pub data Output : Type 0 where
  sends : List ℕ → Output
  closes : Output

abbrev pub hex_digit : ℕ → ℕ
hex_digit n = if ltb n 10 then b'0' + n else b'a' + (n - 10)

hex_digits : ℕ → ℕ → List ℕ
hex_digits zero n = []
hex_digits (suc fuel) n =
    let more = hex_digits fuel (n / 16) in
    if ltb n 16 then hex_digit n ∷ [] else more ++ hex_digit (n % 16) ∷ []

-- "%x" of an `int`
pub to_hex : ℕ → List ℕ
to_hex n = hex_digits 8 (n % 2 ^ 32)

-- `SendReply` behind the header
pub send_body : HttpResponse → List ℕ → List Output
send_body r [] = if r.chunked then sends (codes "0" ++ crlf ++ crlf) ∷ [] else []
send_body r (c ∷ s) =
    if r.chunked
    then sends (to_hex (length (c ∷ s)) ++ crlf)
      ∷ sends (c ∷ s)
      ∷ sends crlf
      ∷ sends (codes "0" ++ crlf ++ crlf)
      ∷ []
    else sends (c ∷ s) ∷ []

-- `SendContinue`
pub send_continue_reply : HttpResponse → List Output
send_continue_reply r =
    sends (status_line (status_entry 100 http_status_code) r ++ crlf ++ crlf) ∷ []

-- `SendReply`, of a connection that is there; `up` is its `IsConnected`.
pub send_reply :
    List ℕ → Bool → ℕ → List (List ℕ × List ℕ) → List ℕ → HttpResponse → List Output × HttpResponse
send_reply date up code fields body r =
    if not up
    then ([], r)
    else if code == 100
    then (send_continue_reply r, r)
    else (let (head, r') = make_http_response date code (length body) fields r in
        (sends head ∷ send_body r' body ++ (if r'.close then closes ∷ [] else []), r'))
