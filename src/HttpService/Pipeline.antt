-- ===== src/HttpService/Pipeline.antt =====
-- evpp/evpphttp/service.cc: several requests in one buffer, and the end of the loop.
use evpp.Base.{
  ℕ, zero, suc, ◌+◌, ◌-◌, ◌≤◌, ◌<◌, ◌≡◌, refl, sym, ap, ◌∙◌, Bool, true, false, List, [], ◌∷◌, ◌++◌,
  map, append_assoc, append-nil, length, length-append, Option, none, some, ◌>>=◌, subst, All,
  arith, inl, inr, Bool-cases,
}
use evpp.HttpRequest.{HttpRequest, UrlParts, Executed, parse, url_path}
use evpp.HttpService.{
  handled, Effect, Handled, Served, then_do, called, not_completed, parsed, request_handler, fresh,
  go_on, serve, on_message,
}

-- A whole request: its bytes, and what parsing them gives.
pub record Message : Type 0 where
  pub first : ℕ
  pub others : List ℕ
  pub request : HttpRequest
  pub path : List ℕ

abbrev pub flat : List Message → List ℕ → List ℕ
flat [] tail = tail
flat (m ∷ ms) tail = m.first ∷ (m.others ++ flat ms tail)

abbrev pub more : ℕ → List Message → ℕ
more fuel [] = fuel
more fuel (m ∷ ms) = suc (more fuel ms)

more-length : (fuel : ℕ) (ms : List Message) → more fuel ms ≡ length ms + fuel
more-length fuel [] = omega arith
more-length fuel (m ∷ ms) = omega (arith, more-length fuel ms)

length-flat : (ms : List Message) (tail : List ℕ) → length ms + length tail ≤ length (flat ms tail)
length-flat [] tail = omega arith
length-flat (m ∷ ms) tail =
    omega (arith, length-append m.others (flat ms tail), length-flat ms tail)

then_do-then_do :
    (es es' : List Effect) (s : Option Served) → then_do es (then_do es' s) ≡ then_do (es ++ es') s
then_do-then_do es es' none = refl
then_do-then_do es es' (some s) =
    ap (λ t. some (record s { effects = t })) (sym (append_assoc es es' s.effects))

then_do-nil : (s : Option Served) → then_do [] s ≡ s
then_do-nil none = refl
then_do-nil (some s) = refl

module _ (parse_url : List ℕ → UrlParts) (execute : List ℕ → List ℕ → Executed)
    (version : List ℕ → ℕ × ℕ) (date : List ℕ) (callbacks : List (List ℕ)) (up : Bool)
    (remote : List ℕ) where
  -- A new request completes at the end of these bytes, whatever follows, and has this path.
  abbrev pub IsMessage : Message → Type 0
  IsMessage m =
      ((rest : List ℕ)
        → parse parse_url execute (m.first ∷ (m.others ++ rest))
            (fresh parse_url execute version date callbacks up remote)
          ≡ (true, rest, m.request))
      × (m.request.is_completed ≡ true)
      × (url_path m.request ≡ some m.path)

  abbrev pub calls_of : List Message → List Effect
  calls_of ms = map (λ m. called parse_url execute version date callbacks up m.path m.request) ms

  serve-message :
      (fuel : ℕ) (m : Message) (rest : List ℕ)
      → IsMessage m
      → serve parse_url execute version date callbacks up
          (suc fuel)
          remote
          (m.first ∷ (m.others ++ rest))
        ≡ then_do
            (calls_of (m ∷ []))
            (serve parse_url execute version date callbacks up fuel remote rest)
  unfolding serve request_handler
  serve-message fuel m rest (p, c, u) = simp (p rest, c, u)

  serve-messages :
      (fuel : ℕ) (ms : List Message) (tail : List ℕ)
      → All IsMessage ms
      → serve parse_url execute version date callbacks up (more fuel ms) remote (flat ms tail)
        ≡ then_do (calls_of ms) (serve parse_url execute version date callbacks up fuel remote tail)
  serve-messages fuel [] tail a =
      sym (then_do-nil (serve parse_url execute version date callbacks up fuel remote tail))
  serve-messages fuel (m ∷ ms) tail (h, a) =
      serve-message (more fuel ms) m (flat ms tail) h
      ∙ ap (then_do (calls_of (m ∷ []))) (serve-messages fuel ms tail a)
      ∙ then_do-then_do (calls_of (m ∷ [])) (calls_of ms) _

  serve-tail :
      (fuel : ℕ) (t : ℕ) (ts : List ℕ) (hr : HttpRequest)
      → parse parse_url execute (t ∷ ts) (fresh parse_url execute version date callbacks up remote)
        ≡ (true, [], hr)
      → hr.is_completed ≡ false
      → serve parse_url execute version date callbacks up (suc fuel) remote (t ∷ ts)
        ≡ some (record {
          context = some (not_completed parse_url execute version date callbacks up [] hr).request;
          buf = [];
          effects = (not_completed parse_url execute version date callbacks up [] hr).effects;
        })
  unfolding serve request_handler
  serve-tail fuel t ts hr p c = simp (p, c)

  -- Whole requests that arrive in one buffer are handled in their order, each once, by the handler
  -- of its path or the default one; what is left of the buffer, a part of a request, stays in the
  -- context of the connection, or nothing does.
  pub on_message-pipelined :
      (ms : List Message) (t : ℕ) (ts : List ℕ) (hr : HttpRequest)
      → All IsMessage ms
      → parse parse_url execute (t ∷ ts) (fresh parse_url execute version date callbacks up remote)
        ≡ (true, [], hr)
      → hr.is_completed ≡ false
      → let rest : Handled = not_completed parse_url execute version date callbacks up [] hr in
        (on_message parse_url execute version date callbacks up remote none (flat ms (t ∷ ts))
          ≡ some (record {
            context = some rest.request;
            buf = [];
            effects = calls_of ms ++ rest.effects;
          }))
        × (on_message parse_url execute version date callbacks up remote none (flat ms [])
            ≡ some (record { context = none; buf = []; effects = calls_of ms }))
  unfolding on_message serve
  on_message-pipelined ms t ts hr a p c = (
    ap (λ n. serve parse_url execute version date callbacks up n remote (flat ms (t ∷ ts)))
          (enough (t ∷ ts) ∙ ap (λ k. more k ms) (omega (arith, length-flat ms (t ∷ ts))))
        ∙ serve-messages (suc (length (flat ms (t ∷ ts)) - length ms - 1)) ms (t ∷ ts) a
        ∙ ap (then_do (calls_of ms))
            (serve-tail (length (flat ms (t ∷ ts)) - length ms - 1) t ts hr p c),
    ap (λ n. serve parse_url execute version date callbacks up n remote (flat ms [])) (enough [])
        ∙ serve-messages (length (flat ms []) - length ms) ms [] a
        ∙ ap (λ es. some (record { context = none; buf = []; effects = es }))
            (append-nil (calls_of ms)),
  )
    where
      enough : (tail : List ℕ) → length (flat ms tail) ≡ more (length (flat ms tail) - length ms) ms
      enough tail =
          omega (arith, length-flat ms tail, more-length (length (flat ms tail) - length ms) ms)

  -- A new request that completes has a path, and has taken some bytes.
  abbrev pub MakesProgress : Type 0
  MakesProgress =
      (buf rest : List ℕ) (hr : HttpRequest)
      → parse parse_url execute buf (fresh parse_url execute version date callbacks up remote)
        ≡ (true, rest, hr)
      → hr.is_completed ≡ true
      → (length rest < length buf) × ((path : List ℕ) × (url_path hr ≡ some path))

  abbrev pub Ends : Option Served → Type 0
  Ends s = (r : Served) × (s ≡ some r)

  then_do-Ends : (es : List Effect) (s : Option Served) → Ends s → Ends (then_do es s)
  then_do-Ends es s (r, e) = (record r { effects = es ++ r.effects }, ap (then_do es) e)

  parsed-completed :
      (buf path : List ℕ) (hr : HttpRequest)
      → hr.is_completed ≡ true
      → url_path hr ≡ some path
      → parsed parse_url execute version date callbacks up (true, buf, hr)
        ≡ some (record {
          ret = handled;
          buf = buf;
          request = hr;
          effects = called parse_url execute version date callbacks up path hr ∷ [];
        })
  parsed-completed buf path hr c u = simp (c, u)

  parsed-incomplete :
      (buf : List ℕ) (hr : HttpRequest)
      → hr.is_completed ≡ false
      → parsed parse_url execute version date callbacks up (true, buf, hr)
        ≡ some (not_completed parse_url execute version date callbacks up buf hr)
  parsed-incomplete buf hr c = simp c

  abbrev continue_with : (List ℕ → Option Served) → Option Handled → Option Served
  continue_with k o = o >>= λ r. go_on parse_url execute version date callbacks up k r

  -- One round, if the rounds on shorter buffers end.
  round-Ends :
      (k : List ℕ → Option Served) (n : ℕ) (q : Bool × List ℕ × HttpRequest)
      → ((hr : HttpRequest) (buf : List ℕ)
          → q ≡ (true, buf, hr)
          → hr.is_completed ≡ true
          → (length buf < n) × ((path : List ℕ) × (url_path hr ≡ some path)))
      → ((buf : List ℕ) → length buf < n → Ends (k buf))
      → Ends (continue_with k (parsed parse_url execute version date callbacks up q))
  round-Ends k n (false, buf, hr) h ends = (record { context = none; buf = buf; effects = _ }, refl)
  round-Ends k n (true, buf, hr) h ends = elim (Bool-cases hr.is_completed) [
    | inl c ↦
        let (small, (path, u)) = h hr buf refl c in
        subst Ends (sym (ap (continue_with k) (parsed-completed buf path hr c u))) (
          then_do-Ends (called parse_url execute version date callbacks up path hr ∷ []) (k buf)
            (ends buf small))
    | inr c ↦
        subst Ends (sym (ap (continue_with k) (parsed-incomplete buf hr c)))
          (record { context = some _; buf = buf; effects = _ }, refl)
  ]

  serve-Ends :
      MakesProgress
      → (fuel : ℕ) (buf : List ℕ) → length buf ≤ fuel
      → Ends (serve parse_url execute version date callbacks up fuel remote buf)
  unfolding serve request_handler
  serve-Ends h fuel [] small = (record { context = none; buf = []; effects = [] }, refl)
  serve-Ends h zero (b ∷ s) small = absurd (omega arith)
  serve-Ends h (suc fuel) (b ∷ s) small =
      round-Ends (serve parse_url execute version date callbacks up fuel remote) (suc (length s))
        (parse parse_url execute (b ∷ s) (fresh parse_url execute version date callbacks up remote))
        (λ hr buf. h (b ∷ s) buf hr) (λ buf less. serve-Ends h fuel buf (omega arith))

  -- The loop of `OnMessage` ends, in as many rounds as there are bytes: when no request waits in the
  -- context, the call returns.
  pub on_message-Ends :
      (buf : List ℕ)
      → MakesProgress
      → Ends (on_message parse_url execute version date callbacks up remote none buf)
  unfolding on_message
  on_message-Ends buf h = serve-Ends h (length buf) buf (omega arith)
