-- ===== src/TcpConn/Reading.antt =====
-- evpp/tcp_conn.cc, `HandleRead`.
use evpp.Base.{ℕ, ◌≡◌, refl, true, false, List, [], ◌∷◌, ◌++◌, some, arith, length, ◌==◌, ◌≢◌}
use evpp.Buffer.{Buffer, got}
use evpp.Buffer.Bounds.{IsValid, Fits}
use evpp.Buffer.Room.{contents}
use evpp.Buffer.Contents.{read_from_fd_lem}
use evpp.FdChannel.{is_readable, is_writable}
use evpp.FdChannel.Watch.{IsSynced, healthy, disable_read-apply}
use evpp.TcpConn.{incoming, call_message, start_timer, TcpConn, at_end, received, handle_read}

-- `HandleRead` appends what was read to the input buffer, calls the message callback once if that
-- is some bytes, and then leaves the rest of the connection alone.
pub handle_read-message :
    {c : TcpConn} (x : ℕ) (xs : List ℕ)
    → IsValid c.input_buffer
    → Fits c.input_buffer (length (x ∷ xs))
    → (b : Buffer) × (handle_read healthy (got (x ∷ xs)) c
        ≡ some (record c { input_buffer = b }, call_message ∷ []))
      × IsValid b
      × (contents b ≡ contents c.input_buffer ++ x ∷ xs)
unfolding handle_read received
handle_read-message {c} x xs v f =
    let (b, e, v', k) = read_from_fd_lem (x ∷ xs) v f in (b, rw e refl, v', k)

zero_test : (n : ℕ) → n ≢ 0 → (n == 0) ≡ false
zero_test n h = ground arith

-- A peer that closes its side of an incoming connection with a delay set: nothing is read any
-- more, the timer starts, and the connection keeps its status, its write event and the bytes that
-- wait.
pub half_close :
    (c : TcpConn)
    → c.conn_type ≡ incoming
    → c.close_delay ≢ 0
    → IsSynced c.chan
    → let (c', es) = received healthy (got []) c in
      (es ≡ start_timer c.close_delay ∷ [])
      × (c'.status ≡ c.status)
      × (c'.output_buffer ≡ c.output_buffer)
      × (c'.delay_close_timer ≡ true)
      × (is_readable c'.chan ≡ false)
      × (is_writable c'.chan ≡ is_writable c.chan)
      × IsSynced c'.chan
unfolding received at_end
half_close c t d s =
    let (s', r, w) = disable_read-apply c.chan s in
    rw t (rw (zero_test c.close_delay d) (refl, refl, refl, refl, r, w, s'))
