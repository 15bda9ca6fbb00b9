-- ===== src/Errno.antt =====
-- The error numbers that evpp/sys_sockets.h tells apart, and its tests of them (not on Windows).
use evpp.Base.{ℕ, Bool, true, false}

pub data Errno : Type 0 where
  eagain eintr einprogress econnaborted econnrefused econnreset epipe etimedout : Errno
  other : ℕ → Errno

-- `EVUTIL_ERR_RW_RETRIABLE`
unfoldable pub is_rw_retriable : Errno → Bool
is_rw_retriable eagain = true
is_rw_retriable eintr = true
is_rw_retriable _ = false

-- `EVUTIL_ERR_CONNECT_RETRIABLE`
unfoldable pub is_connect_retriable : Errno → Bool
is_connect_retriable eintr = true
is_connect_retriable einprogress = true
is_connect_retriable _ = false

-- `EVUTIL_ERR_ACCEPT_RETRIABLE`
unfoldable pub is_accept_retriable : Errno → Bool
is_accept_retriable eintr = true
is_accept_retriable eagain = true
is_accept_retriable econnaborted = true
is_accept_retriable _ = false

-- `EVUTIL_ERR_CONNECT_REFUSED`
unfoldable pub is_connect_refused : Errno → Bool
is_connect_refused econnrefused = true
is_connect_refused _ = false

-- The two errors for which `SendInLoop` gives the connection up.
unfoldable pub is_broken : Errno → Bool
is_broken epipe = true
is_broken econnreset = true
is_broken _ = false
