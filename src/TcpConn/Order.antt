-- ===== src/TcpConn/Order.antt =====
-- evpp/tcp_conn.cc: sends and write events in any order.
use evpp.Base.{
  ℕ, zero, suc, ◌≤◌, ◌≡◌, refl, sym, ap, ◌∙◌, inl, inr, true, not, List, [], ◌∷◌, ◌++◌, Option,
  none, some, length, take, Bool-cases, ◌==◌, append-nil, take-append-drop, append_assoc, subst,
  some-inj,
}
use evpp.Errno.{Errno, is_rw_retriable}
use evpp.Buffer.{Buffer}
use evpp.Buffer.Bounds.{IsValid, Fits}
use evpp.Buffer.Room.{contents}
use evpp.Buffer.Taking.{next_lem}
use evpp.FdChannel
use evpp.FdChannel.{Backend, is_writable}
use evpp.FdChannel.Watch.{is_writable-disable}
use evpp.TcpConn.{
  connected, Effect, transmit, TcpConn, SendResult, is_disconnected, is_connected, on, send, wrote,
  written, handle_write, queue_write_complete, not_written,
}
use evpp.TcpConn.Stream.{
  transmitted, waiting, IsSound, Forwards, Accepts, send_in_loop-Forwards, transmitted-on,
  buffer_length-contents,
}

-- What the kernel may answer to `HandleWrite` without breaking the connection: that it took some
-- of the waiting bytes, or an error that calls for another attempt.
abbrev pub Takes : Option ℕ → Errno → List ℕ → Type 0
Takes none errno d = is_rw_retriable errno ≡ true
Takes (some zero) errno d = is_rw_retriable errno ≡ true
Takes (some (suc n)) errno d = suc n ≤ length d

-- The end of a call that is known to forward.
Forwards-result :
    {c c' : TcpConn} {d : List ℕ} {es : List Effect} {r : Option (TcpConn × List Effect)}
    → Forwards c d r
    → r ≡ some (c', es)
    → IsSound c' × (transmitted es ++ waiting c' ≡ waiting c ++ d)
Forwards-result {c} {c'} {d} {es} f h =
    subst
      (λ (p : TcpConn × List Effect).
        IsSound p.0 × (transmitted p.1 ++ waiting p.0 ≡ waiting c ++ d))
      (some-inj (sym f.returns ∙ h)) (f.sound, f.in_order)

module _ (sys : Backend) where
  -- `HandleWrite` after `d` bytes have gone and `c` has the rest.
  written-Forwards :
      (d : List ℕ) {c : TcpConn} (b : Buffer)
      → is_writable c.chan ≡ true
      → IsValid b
      → d ++ contents b ≡ waiting c
      → Forwards c [] (some (written sys d (record c { output_buffer = b })))
  unfolding written transmitted
  written-Forwards d {c} b w v e = elim (Bool-cases (length (contents b) == 0)) [
    | inl z ↦ record {
      final = record c { output_buffer = b; chan = FdChannel.disable_write_event sys c.chan };
      effects = transmit d ∷ on c.write_complete_fn queue_write_complete;
      returns = rw (buffer_length-contents v, z) refl;
      sound = record { valid = v; armed = is_writable-disable sys c.chan ∙ sym (ap not z) };
      in_order =
          append_assoc d (transmitted (on c.write_complete_fn queue_write_complete)) (contents b)
          ∙ ap (λ x. d ++ (x ++ contents b)) (transmitted-on c.write_complete_fn _ refl)
          ∙ e
          ∙ sym (append-nil (waiting c));
      same_status = refl;
    }
    | inr nz ↦ record {
      final = record c { output_buffer = b };
      effects = transmit d ∷ [];
      returns = rw (buffer_length-contents v, nz) refl;
      sound = record { valid = v; armed = w ∙ sym (ap not nz) };
      in_order = ap (λ x. x ++ contents b) (append-nil d) ∙ e ∙ sym (append-nil (waiting c));
      same_status = refl;
    }
  ]

  wrote-Forwards :
      (n : Option ℕ) (errno : Errno) {c : TcpConn}
      → IsSound c
      → is_writable c.chan ≡ true
      → Takes n errno (waiting c)
      → Forwards c [] (wrote sys n errno c)
  unfolding wrote not_written transmitted
  wrote-Forwards none errno {c} s w t = record {
    final = c;
    effects = [];
    returns = rw t refl;
    sound = s;
    in_order = sym (append-nil (waiting c));
    same_status = refl;
  }
  wrote-Forwards (some zero) errno {c} s w t = record {
    final = c;
    effects = [];
    returns = rw t refl;
    sound = s;
    in_order = sym (append-nil (waiting c));
    same_status = refl;
  }
  wrote-Forwards (some (suc n)) errno {c} s w t =
      let (b, e, v, k) = next_lem (suc n) s.valid in
      rw e (
        written-Forwards (take (suc n) (waiting c)) b w v
          (ap (λ x. take (suc n) (waiting c) ++ x) k ∙ take-append-drop (suc n) (waiting c)))

  handle_write-Forwards :
      (r : SendResult) {c : TcpConn}
      → IsSound c
      → is_writable c.chan ≡ true
      → Takes r.sent r.errno (waiting c)
      → Forwards c [] (handle_write sys r c)
  unfolding handle_write
  handle_write-Forwards r s w t = wrote-Forwards r.sent r.errno s w t

  -- The calls of a connection that stays up, with the bytes given to `Send` and those that the
  -- kernel took.
  pub data Trace (c : TcpConn) : TcpConn → List ℕ → List ℕ → Type 0 where
    start : Trace c c [] []
    sends :
        {c' c'' : TcpConn} {given taken : List ℕ} {es : List Effect}
        → Trace c c' given taken
        → (r : SendResult) (d : List ℕ) → c'.status ≡ connected
        → Fits c'.output_buffer (length d)
        → Accepts sys r d
        → send sys true r d c' ≡ some (c'', es)
        → Trace c c'' (given ++ d) (taken ++ transmitted es)
    writes :
        {c' c'' : TcpConn} {given taken : List ℕ} {es : List Effect}
        → Trace c c' given taken
        → (r : SendResult) → is_writable c'.chan ≡ true
        → Takes r.sent r.errno (waiting c')
        → handle_write sys r c' ≡ some (c'', es)
        → Trace c c'' given (taken ++ transmitted es)

  pub send-Forwards :
      (r : SendResult) (d : List ℕ) {c : TcpConn}
      → IsSound c
      → c.status ≡ connected
      → Fits c.output_buffer (length d)
      → Accepts sys r d
      → Forwards c d (send sys true r d c)
  unfolding send
  send-Forwards r d {c} s up f h =
      rw (ap is_connected up) (send_in_loop-Forwards sys d s f r (ap is_disconnected up) h)

  -- While a connection stays up, whatever the kernel takes of each write, the bytes that it took
  -- and then those that wait are the bytes that waited first and then those given to `Send`, in
  -- order; and the write event is on exactly while some wait.
  pub Trace-in_order :
      {c c' : TcpConn} {given taken : List ℕ}
      → Trace c c' given taken
      → IsSound c
      → IsSound c' × (taken ++ waiting c' ≡ waiting c ++ given)
  Trace-in_order {c} start s = (s, sym (append-nil (waiting c)))
  Trace-in_order {c}
        (sends {c' = m} {c'' = z} {given = given} {taken = taken} {es = es} t r d up f h e) s =
      let (s', before) = Trace-in_order t s in
      let (s'', step) = Forwards-result (send-Forwards r d s' up f h) e in
      (
        s'',
        append_assoc taken (transmitted es) (waiting z)
            ∙ ap (λ x. taken ++ x) step
            ∙ sym (append_assoc taken (waiting m) d)
            ∙ ap (λ x. x ++ d) before
            ∙ append_assoc (waiting c) given d,
      )
  Trace-in_order {c} (writes {c' = m} {c'' = z} {given = given} {taken = taken} {es = es} t r w h e)
        s =
      let (s', before) = Trace-in_order t s in
      let (s'', step) = Forwards-result (handle_write-Forwards r s' w h) e in
      (
        s'',
        append_assoc taken (transmitted es) (waiting z)
            ∙ ap (λ x. taken ++ x) (step ∙ append-nil (waiting m))
            ∙ before,
      )
