-- ===== src/HttpcRequest.antt =====
-- evpp/httpc/request.cc: a request of the HTTP client and its retries. What libevent makes of an
-- attempt is an argument; effects are listed in order.
pub mod Retrying
mod Tests
use evpp.Base.{
  ℕ, zero, suc, ◌+◌, Bool, true, false, not, List, [], ◌∷◌, ◌++◌, Option, none, some, ◌&&◌, ◌||◌,
  if◌then◌else◌, leb, ltb,
}

pub record Request : Type 0 where
  pub retried : ℕ
  pub retry_number : ℕ
  -- The interval between attempts is zero.
  pub no_interval : Bool
  -- The request takes its connections from a pool.
  pub has_pool : Bool
  -- `conn_` is set.
  pub has_conn : Bool

-- What becomes of an attempt: it fails before it is sent, it has a response with this code, or none
pub data Attempt : Type 0 where
  fails_early : Attempt
  responds : ℕ → Attempt
  no_response : Attempt

pub data Effect : Type 0 where
  -- `Get` and `Put` of the pool
  gets puts : Effect
  -- The timer of a retry
  waits : Effect
  -- The handler, with the code of the response if there is one
  tells : Option ℕ → Effect

-- Whether the request is over
abbrev pub Step : Type 0
Step = Bool × Request × List Effect

-- The pool gets its connection back.
pub recycle : Request → Request × List Effect
recycle r = if r.has_pool then (record r { has_conn = false }, puts ∷ []) else (r, [])

-- `Retry`, up to the next attempt
pub retry : Request → Step
retry r =
    let (r', es) = recycle (record r { retried = r.retried + 1 }) in
    (false, r', es ++ (if r.no_interval then [] else waits ∷ []))

-- The end of `HandleResponse`
pub finish : Option ℕ → Request → Step
finish code r = let (r', es) = recycle r in (true, r', es ++ tells code ∷ [])

abbrev pub needs_retry : ℕ → Bool
needs_retry code = leb 500 code && ltb code 600

-- `HandleResponse`
pub handle_response : Option ℕ → Request → Step
handle_response none r = if ltb r.retried r.retry_number then retry r else finish none r
handle_response (some code) r =
    if not (needs_retry code) || leb r.retry_number r.retried
    then finish (some code) r
    else if ltb r.retried r.retry_number
    then retry r
    else finish (some code) r

-- The label `failed` of `ExecuteInLoop`
pub fail : Request → Step
fail r = if ltb r.retried r.retry_number then retry r else (true, r, tells none ∷ [])

abbrev pub after : Attempt → Request → Step
after fails_early r = fail r
after (responds code) r = handle_response (some code) r
after no_response r = handle_response none r

-- `ExecuteInLoop` and what follows it
pub attempt : Attempt → Request → Step
attempt a r =
    if r.has_conn
    then after a r
    else (let (done, r', es) = after a (record r { has_conn = true }) in (done, r', gets ∷ es))

abbrev pub ran : List Effect → Bool × List Effect → Bool × List Effect
ran es (done, fs) = (done, es ++ fs)

-- The request until it is over or there are no more attempts: whether it is over, and its effects.
pub execute : List Attempt → Request → Bool × List Effect
execute [] r = (false, [])
execute (a ∷ later) r =
    let (done, r', es) = attempt a r in
    let rest = execute later r' in if done then (true, es) else ran es rest
