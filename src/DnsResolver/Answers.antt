-- ===== src/DnsResolver/Answers.antt =====
-- evpp/dns_resolver.cc: the resolver from `Start` on, whatever answers it.
use mathlib.Core.Bool.{true≢false}
use evpp.Base.{
  inl, inr, ◌⊎◌, ◌&&◌, ℕ, ◌+◌, ◌≤◌, ◌≡◌, refl, sym, Bool, true, false, List, [], ◌∷◌, ◌++◌, Option,
  some, if◌then◌else◌, ◌>>=◌, arith,
}
use evpp.DnsResolver.{
  DnsResolver, Effect, calls_functor, cancels_request, frees_base, Answer, found, no_addresses,
  lookup_failed, cancelled, new, start, tell, clear_timer, usable, on_resolved, on_timeout, cancel,
}

-- The timer, the answer of libevent, a call of `Cancel`.
pub data Event : Type 0 where
  times_out is_cancelled : Event
  answers : Answer → Event

-- libevent answers a request that was cancelled with EVUTIL_EAI_CANCEL, and no other.
abbrev pub given : Bool → Answer → Answer
given true cancelled = no_addresses
given true a = a
given false a = cancelled

-- An event that cannot happen does nothing: the timer fires if it is there, libevent answers once.
abbrev pub step : Event → DnsResolver → Option (DnsResolver × List Effect)
step times_out r = if r.timer then on_timeout r else some (r, [])
step is_cancelled r = some (cancel r)
step (answers a) r = if r.dnsbase then on_resolved (given r.dns_req a) r else some (r, [])

abbrev pub run : List Event → DnsResolver → Option (DnsResolver × List Effect)
run [] r = some (r, [])
run (e ∷ es) r = step e r >>= λ (r', fx). run es r' >>= λ (r'', fx'). some (r'', fx ++ fx')

abbrev pub calls : List Effect → ℕ
calls [] = 0
calls (calls_functor a ∷ es) = 1 + calls es
calls (cancels_request ∷ es) = calls es
calls (frees_base ∷ es) = calls es

abbrev pub frees : List Effect → ℕ
frees [] = 0
frees (calls_functor a ∷ es) = frees es
frees (cancels_request ∷ es) = frees es
frees (frees_base ∷ es) = 1 + frees es

abbrev pub count : Bool → ℕ
count true = 1
count false = 0

-- Waiting for an answer; timed out or cancelled before it; answered.
data Phase : DnsResolver → Type 0 where
  pending :
      Phase (record { timer = true; dnsbase = true; dns_req = true; functor = true; addrs = [] })
  given_up :
      Phase (record { timer = false; dnsbase = true; dns_req = false; functor = false; addrs = [] })
  answered :
      (req : Bool) (addrs : List ℕ)
      → Phase
          (record { timer = false; dnsbase = false; dns_req = req; functor = false; addrs = addrs })

abbrev pub leaves_alone : Event → Bool
leaves_alone is_cancelled = false
leaves_alone times_out = true
leaves_alone (answers a) = true

abbrev pub nobody_cancels : List Event → Bool
nobody_cancels [] = true
nobody_cancels (e ∷ es) = leaves_alone e && nobody_cancels es

-- What a run has done: the calls of the functor are those that `functor` owed, or fewer if `Cancel`
-- was called; and the base is freed when it goes.
record Outcome (patient : Bool) (r r' : DnsResolver) (fx : List Effect) : Type 0 where
  phase : Phase r'
  once : calls fx + count r'.functor ≤ count r.functor
  owed : patient ≡ true → calls fx + count r'.functor ≡ count r.functor
  freed : frees fx + count r'.dnsbase ≡ count r.dnsbase

abbrev Good : Bool → DnsResolver → Option (DnsResolver × List Effect) → Type 0
Good patient r o =
    (r' : DnsResolver) × (fx : List Effect) × (o ≡ some (r', fx)) × Outcome patient r r' fx

-- An event that settles what it owes, and one that may drop it
settles-Good :
    (patient : Bool) (r r' : DnsResolver) (fx : List Effect)
    → Phase r'
    → calls fx + count r'.functor ≡ count r.functor
    → frees fx + count r'.dnsbase ≡ count r.dnsbase
    → Good patient r (some (r', fx))
settles-Good patient r r' fx ph c f =
    (r', fx, refl, record { phase = ph; once = omega arith; owed = λ p. c; freed = f })

drops-Good :
    (r r' : DnsResolver) (fx : List Effect)
    → Phase r'
    → calls fx + count r'.functor ≤ count r.functor
    → frees fx + count r'.dnsbase ≡ count r.dnsbase
    → Good false r (some (r', fx))
drops-Good r r' fx ph c f = (
  r',
  fx,
  refl,
  record { phase = ph; once = c; owed = λ p. absurd (true≢false (sym p)); freed = f },
)

step-Good : (e : Event) (r : DnsResolver) → Phase r → Good (leaves_alone e) r (step e r)
unfolding on_timeout clear_timer tell on_resolved cancel
step-Good times_out _ pending = settles-Good _ _ _ _ given_up refl refl
step-Good times_out _ given_up = settles-Good _ _ _ _ given_up refl refl
step-Good times_out _ (answered req addrs) = settles-Good _ _ _ _ (answered req addrs) refl refl
step-Good is_cancelled _ pending = drops-Good _ _ _ given_up (omega arith) refl
step-Good is_cancelled _ given_up = drops-Good _ _ _ given_up (omega arith) refl
step-Good is_cancelled _ (answered req addrs) =
    drops-Good _ _ _ (answered req addrs) (omega arith) refl
step-Good (answers (found a)) _ pending = settles-Good _ _ _ _ (answered true (usable a)) refl refl
step-Good (answers no_addresses) _ pending = settles-Good _ _ _ _ (answered true []) refl refl
step-Good (answers cancelled) _ pending = settles-Good _ _ _ _ (answered true []) refl refl
step-Good (answers (lookup_failed n)) _ pending = settles-Good _ _ _ _ (answered true []) refl refl
step-Good (answers a) _ given_up = settles-Good _ _ _ _ (answered false []) refl refl
step-Good (answers a) _ (answered req addrs) = settles-Good _ _ _ _ (answered req addrs) refl refl

calls-append : (a b : List Effect) → calls (a ++ b) ≡ calls a + calls b
calls-append [] b = omega arith
calls-append (calls_functor s ∷ a) b = omega (arith, calls-append a b)
calls-append (cancels_request ∷ a) b = calls-append a b
calls-append (frees_base ∷ a) b = calls-append a b

frees-append : (a b : List Effect) → frees (a ++ b) ≡ frees a + frees b
frees-append [] b = omega arith
frees-append (calls_functor s ∷ a) b = frees-append a b
frees-append (cancels_request ∷ a) b = frees-append a b
frees-append (frees_base ∷ a) b = omega (arith, frees-append a b)

both : (a b : Bool) → (a && b) ≡ true → (a ≡ true) × (b ≡ true)
both true b h = (refl, h)
both false b h = absurd (true≢false (sym h))

run-Good : (es : List Event) (r : DnsResolver) → Phase r → Good (nobody_cancels es) r (run es r)
run-Good [] r p = (
  r,
  [],
  refl,
  record { phase = p; once = omega arith; owed = λ h. omega arith; freed = omega arith },
)
run-Good (e ∷ es) r p =
    let (r', fx, q, o) = step-Good e r p in
    let (r'', fx', q', o') = run-Good es r' o.phase in
    (
      r'',
      fx ++ fx',
      rw q rw q' refl,
      record {
        phase = o'.phase;
        once = omega (arith, calls-append fx fx', o.once, o'.once);
        owed = λ h.
            let (a, b) = both (leaves_alone e) (nobody_cancels es) h in
            omega (arith, calls-append fx fx', o.owed a, o'.owed b);
        freed = omega (arith, frees-append fx fx', o.freed, o'.freed);
      },
    )

-- The timer and the functor are gone, or the base is there.
abbrev pub IsFinished : DnsResolver → Type 0
IsFinished r = (r.dnsbase ≡ true) ⊎ ((r.timer ≡ false) × (r.functor ≡ false))

finished : (r : DnsResolver) → Phase r → IsFinished r
finished _ pending = inl refl
finished _ given_up = inl refl
finished _ (answered req addrs) = inr (refl, refl)

-- One call, made or owed; or one at most, if `Cancel` may have been called.
abbrev pub IsOwed : Bool → ℕ → Type 0
IsOwed true k = k ≡ 1
IsOwed false k = k ≤ 1

calls-IsOwed : (patient : Bool) (k : ℕ) → k ≤ 1 → (patient ≡ true → k ≡ 1) → IsOwed patient k
calls-IsOwed true k small exact = exact refl
calls-IsOwed false k small exact = small

-- From `Start` on, whatever happens in whatever order, the timer is not used when it is gone; the
-- functor is called once at most, and if `Cancel` is not called it has been called or is still to
-- be called; the base is freed once, and when it is, the timer and the functor are gone.
pub run-start :
    (es : List Event)
    → (r : DnsResolver) × (fx : List Effect) × (run es (start new) ≡ some (r, fx))
      × IsOwed (nobody_cancels es) (calls fx + count r.functor)
      × (frees fx + count r.dnsbase ≡ 1)
      × IsFinished r
unfolding start new
run-start es =
    let (r, fx, q, o) = run-Good es (start new) pending in
    (r, fx, q, calls-IsOwed (nobody_cancels es) _ o.once o.owed, o.freed, finished r o.phase)
