-- ===== src/NsqConn/Frames.antt =====
-- apps/evnsq/nsq_conn.cc, OnRecv: how far the frames of a buffer are read.
use evpp.Base.{
  true, false, ℕ, ◌≤◌, ◌≡◌, Bool, List, Option, none, some, if◌then◌else◌, ltb, length, add_size,
}
use evpp.NsqConn.{NsqConn, Effect}
use evpp.NsqConn.Receiving.{Nsqd, peek_int, to_size, Received, ended, outside, unfinished}

-- What is left is no longer than the buffer was
abbrev pub Fits : ℕ → Option (List ℕ × NsqConn × List Effect) → Type 0
Fits m none = Unit
Fits m (some (rest, n, es)) = length rest ≤ m

abbrev pub is_short : Nsqd → List ℕ → Option ℕ → Bool
is_short o buf none = false
is_short o buf (some size) = ltb (length buf) (add_size (to_size o size) 4)

-- The buffer does not begin with a whole frame.
abbrev pub is_partial : Nsqd → List ℕ → Bool
is_partial o buf = if ltb 4 (length buf) then is_short o buf (peek_int o buf) else true

-- The loop has ended, with no more left than there was and no whole frame, or with a read outside.
abbrev pub Ends : Nsqd → ℕ → Received → Type 0
Ends o m (ended rest n es) = (length rest ≤ m) × (is_partial o rest ≡ true)
Ends o m outside = Unit
Ends o m unfinished = ⊥
