-- ===== src/HttpcRequest/Retrying.antt =====
-- evpp/httpc/request.cc: how often a request is tried, what the handler hears, and the connections
-- that the pool gets back.
use mathlib.Core.Bool.{true≢false}
use evpp.Base.{
  ℕ, zero, suc, ◌+◌, ◌≤◌, ◌<◌, ◌≡◌, refl, sym, ap, subst, Bool, true, false, not, List, [], ◌∷◌,
  ◌++◌, Option, none, some, ◌&&◌, if◌then◌else◌, leb, le→leb, lt→ltb, le→ltb, length, arith,
  Bool-cases, inl, inr,
}
use evpp.HttpcRequest.{
  Request, Attempt, fails_early, responds, no_response, Effect, gets, puts, waits, tells, recycle,
  retry, finish, needs_retry, handle_response, fail, attempt, ran, execute,
}

-- The response ends the request whatever retries are left.
abbrev pub is_final : Attempt → Bool
is_final fails_early = false
is_final (responds code) = not (needs_retry code)
is_final no_response = false

abbrev pub code_of : Attempt → Option ℕ
code_of fails_early = none
code_of (responds code) = some code
code_of no_response = none

abbrev pub was_sent : Attempt → Bool
was_sent fails_early = false
was_sent (responds code) = true
was_sent no_response = true

-- The attempt that decides, with so many retries left
pub deciding : ℕ → Attempt → List Attempt → Attempt
deciding zero a later = a
deciding (suc k) a [] = a
deciding (suc k) a (b ∷ later) = if is_final a then a else deciding k b later

abbrev pub told : List Effect → List (Option ℕ)
told [] = []
told (gets ∷ es) = told es
told (puts ∷ es) = told es
told (waits ∷ es) = told es
told (tells o ∷ es) = o ∷ told es

-- How often a connection is taken, and given back
abbrev pub taken : List Effect → ℕ
taken [] = 0
taken (gets ∷ es) = suc (taken es)
taken (puts ∷ es) = taken es
taken (waits ∷ es) = taken es
taken (tells o ∷ es) = taken es

abbrev pub given : List Effect → ℕ
given [] = 0
given (gets ∷ es) = given es
given (puts ∷ es) = suc (given es)
given (waits ∷ es) = given es
given (tells o ∷ es) = given es

-- A request before an attempt: it has a connection of its own or will take one from the pool.
abbrev pub before : ℕ → ℕ → Bool → Bool → Request
before retried retry_number no_interval has_pool = record {
  retried = retried;
  retry_number = retry_number;
  no_interval = no_interval;
  has_pool = has_pool;
  has_conn = not has_pool;
}

abbrev retry_effects : Bool → Bool → List Effect
retry_effects p i = (if p then gets ∷ puts ∷ [] else []) ++ (if i then [] else waits ∷ [])

abbrev last_effects : Bool → Attempt → List Effect
last_effects p a =
    (if p then gets ∷ [] else [])
    ++ ((if p && was_sent a then puts ∷ [] else []) ++ tells (code_of a) ∷ [])

not_leb : (a b : ℕ) → a < b → leb b a ≡ false
not_leb a b h = ground arith

retry-attempt :
    (a : Attempt) (n m : ℕ) (i p : Bool)
    → is_final a ≡ false
    → n < m
    → attempt a (before n m i p) ≡ (false, before (n + 1) m i p, retry_effects p i)
unfolding attempt fail handle_response retry recycle
retry-attempt fails_early n m i true f h = rw (lt→ltb n m h) refl
retry-attempt fails_early n m i false f h = rw (lt→ltb n m h) refl
retry-attempt (responds code) n m i true f h = rw f rw (not_leb n m h) rw (lt→ltb n m h) refl
retry-attempt (responds code) n m i false f h = rw f rw (not_leb n m h) rw (lt→ltb n m h) refl
retry-attempt no_response n m i true f h = rw (lt→ltb n m h) refl
retry-attempt no_response n m i false f h = rw (lt→ltb n m h) refl

abbrev Ends : Bool → Attempt → Bool × Request × List Effect → Type 0
Ends p a r = (r.0 ≡ true) × (r.2 ≡ last_effects p a)

final-attempt :
    (a : Attempt) (n m : ℕ) (i p : Bool) → is_final a ≡ true → Ends p a (attempt a (before n m i p))
unfolding attempt handle_response finish recycle
final-attempt fails_early n m i p f = absurd (true≢false (sym f))
final-attempt (responds code) n m i true f = rw f (refl, refl)
final-attempt (responds code) n m i false f = rw f (refl, refl)
final-attempt no_response n m i p f = absurd (true≢false (sym f))

last-attempt : (a : Attempt) (n : ℕ) (i p : Bool) → Ends p a (attempt a (before n n i p))
unfolding attempt fail handle_response finish recycle
last-attempt fails_early n i true = rw (le→ltb n n (omega arith)) (refl, refl)
last-attempt fails_early n i false = rw (le→ltb n n (omega arith)) (refl, refl)
last-attempt (responds code) n i true = elim (Bool-cases (not (needs_retry code))) [
  | inl e ↦ rw e (refl, refl)
  | inr e ↦ rw e rw (le→leb n n (omega arith)) (refl, refl)
]
last-attempt (responds code) n i false = elim (Bool-cases (not (needs_retry code))) [
  | inl e ↦ rw e (refl, refl)
  | inr e ↦ rw e rw (le→leb n n (omega arith)) (refl, refl)
]
last-attempt no_response n i true = rw (le→ltb n n (omega arith)) (refl, refl)
last-attempt no_response n i false = rw (le→ltb n n (omega arith)) (refl, refl)

-- What the whole request does with the decision
pub record Decides (p : Bool) (a : Attempt) (r : Bool × List Effect) : Type 0 where
  pub done : r.0 ≡ true
  pub once : told r.1 ≡ code_of a ∷ []
  pub balance : taken r.1 ≡ given r.1 + (if p && not (was_sent a) then 1 else 0)

last-Decides : (p : Bool) (a : Attempt) → Decides p a (true, last_effects p a)
last-Decides true fails_early = record { done = refl; once = refl; balance = refl }
last-Decides true (responds code) = record { done = refl; once = refl; balance = refl }
last-Decides true no_response = record { done = refl; once = refl; balance = refl }
last-Decides false fails_early = record { done = refl; once = refl; balance = refl }
last-Decides false (responds code) = record { done = refl; once = refl; balance = refl }
last-Decides false no_response = record { done = refl; once = refl; balance = refl }

retry-Decides :
    (p i : Bool) (a : Attempt) (r : Bool × List Effect)
    → Decides p a r
    → Decides p a (ran (retry_effects p i) r)
retry-Decides true true a r d = record {
  done = d.done;
  once = d.once;
  balance = omega (arith, d.balance);
}
retry-Decides true false a r d = record {
  done = d.done;
  once = d.once;
  balance = omega (arith, d.balance);
}
retry-Decides false true a r d = d
retry-Decides false false a r d = record { done = d.done; once = d.once; balance = d.balance }

-- What `execute` does behind an attempt
abbrev goes_on : List Attempt → Bool × Request × List Effect → Bool × List Effect
goes_on later (done, r, es) = if done then (true, es) else ran es (execute later r)

end-Decides :
    (p : Bool) (a : Attempt) (later : List Attempt) (r : Bool × Request × List Effect)
    → Ends p a r
    → Decides p a (goes_on later r)
end-Decides p a later (done, r, es) (e, f) = rw e rw f (last-Decides p a)

add_zero : (n : ℕ) → n ≡ n + 0
add_zero n = omega arith

add_suc : (n k : ℕ) → n + 1 + k ≡ n + suc k
add_suc n k = omega arith

deciding-test :
    (k : ℕ) (a b : Attempt) (later : List Attempt) {t : Bool}
    → is_final a ≡ t
    → deciding (suc k) a (b ∷ later) ≡ (if t then a else deciding k b later)
unfolding deciding
deciding-test k a b later e = ap (λ t. if t then a else deciding k b later) e

-- A request with `k` retries left calls its handler exactly once, whatever becomes of its attempts:
-- with the first response that is not a server error, or with what the attempt after the last retry
-- gave. The pool gets back each connection that it gave, but for one of a last attempt that failed
-- before it was sent.
pub execute-Decides :
    (k n : ℕ) (i p : Bool) (a : Attempt) (later : List Attempt)
    → k ≤ length later
    → Decides p (deciding k a later) (execute (a ∷ later) (before n (n + k) i p))
unfolding execute deciding
execute-Decides zero n i p a later h =
    end-Decides p a later (attempt a (before n (n + 0) i p))
      (subst (λ m. Ends p a (attempt a (before n m i p))) (add_zero n) (last-attempt a n i p))
execute-Decides (suc k) n i p a [] h = absurd (omega arith)
execute-Decides (suc k) n i p a (b ∷ later) h = elim (Bool-cases (is_final a)) [
  | inl f ↦
      subst (λ d. Decides p d (execute (a ∷ b ∷ later) (before n (n + suc k) i p)))
        (sym (deciding-test k a b later f))
        (end-Decides p a (b ∷ later) (attempt a (before n (n + suc k) i p))
          (final-attempt a n (n + suc k) i p f))
  | inr f ↦
      subst (λ d. Decides p d (execute (a ∷ b ∷ later) (before n (n + suc k) i p)))
        (sym (deciding-test k a b later f))
        (subst (λ r. Decides p (deciding k b later) (goes_on (b ∷ later) r))
          (sym (retry-attempt a n (n + suc k) i p f (omega arith)))
          (retry-Decides p i (deciding k b later)
            (execute (b ∷ later) (before (n + 1) (n + suc k) i p))
            (subst
              (λ m. Decides p (deciding k b later) (execute (b ∷ later) (before (n + 1) m i p)))
              (add_suc n k) (execute-Decides k (n + 1) i p b later (omega arith)))))
]
