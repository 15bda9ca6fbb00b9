-- ===== src/TcpConn/Stream.antt =====
-- evpp/tcp_conn.cc, `SendInLoop` and `HandleWrite`: the bytes given to a connection reach the
-- kernel in order, none lost and none twice, and the write event is on while some wait.
use evpp.Base.{
  ℕ, ◌-◌, ◌≤◌, ◌≡◌, refl, sym, ap, ◌∙◌, inl, inr, Bool, true, false, not, List, [], ◌∷◌, ◌++◌,
  Option, none, some, arith, length, take, drop, Bool-cases, ◌==◌, ==_iff, append-nil, ◌&&◌,
  take-append-drop, length-drop, length-append, append_assoc,
}
use evpp.Errno.{Errno, is_rw_retriable, is_broken}
use evpp.Buffer.{Buffer, buffer_length}
use evpp.Buffer.Bounds.{IsValid, Fits, buffer_length_lem}
use evpp.Buffer.Room.{contents, length-contents}
use evpp.Buffer.Contents.{write_lem}
use evpp.FdChannel.{Backend, is_writable}
use evpp.FdChannel.Watch.{is_writable-enable}
use evpp.TcpConn.{
  Effect, transmit, TcpConn, SendResult, is_disconnected, on, queue_rest, direct, send_in_loop,
  queue_write_complete, buffered, high_water,
}

-- The bytes that the kernel took.
unfoldable pub transmitted : List Effect → List ℕ
transmitted [] = []
transmitted (transmit d ∷ es) = d ++ transmitted es
transmitted (_ ∷ es) = transmitted es

-- The bytes that wait for it.
abbrev pub waiting : TcpConn → List ℕ
waiting c = contents c.output_buffer

-- The output buffer is sound, and the write event is on exactly while bytes wait.
pub record IsSound (c : TcpConn) : Type 0 where
  pub valid : IsValid c.output_buffer
  pub armed : is_writable c.chan ≡ not (length (waiting c) == 0)

pub buffer_length-contents : {b : Buffer} → IsValid b → buffer_length b ≡ length (contents b)
buffer_length-contents v = omega (arith, buffer_length_lem v, length-contents v)

pub transmitted-on : (b : Bool) (e : Effect) → transmitted (e ∷ []) ≡ [] → transmitted (on b e) ≡ []
unfolding transmitted
transmitted-on true e h = h
transmitted-on false e h = refl

transmitted-after :
    (b : Bool) (e : Effect) (es : List Effect)
    → transmitted (e ∷ []) ≡ []
    → transmitted (on b e ++ es) ≡ transmitted es
unfolding transmitted
transmitted-after true e es h = front e es h
  where
    front :
        (e : Effect) (es : List Effect)
        → transmitted (e ∷ []) ≡ []
        → transmitted (e ∷ es) ≡ transmitted es
    front (transmit d) es h = ap (λ x. x ++ transmitted es) (sym (append-nil d) ∙ h)
    front queue_write_complete es h = refl
    front _ es h = refl
transmitted-after false e es h = refl

transmitted-high_water : (n k : ℕ) (c : TcpConn) → transmitted (high_water n k c) ≡ []
unfolding high_water
transmitted-high_water n k c = transmitted-on _ _ (unfold transmitted in refl)

some_left : (xs ys d : List ℕ) → xs ≡ ys ++ d → (length d == 0) ≡ false → (length xs == 0) ≡ false
some_left xs ys d e h = ground (arith, ap length e, length-append ys d)

is_writable-buffered :
    (sys : Backend) (b : Buffer) (c : TcpConn) → is_writable (buffered sys b c).chan ≡ true
unfolding buffered
is_writable-buffered sys b c = elim (Bool-cases (is_writable c.chan)) [
  | inl on' ↦ rw (on', buffered) on'
  | inr off ↦ rw (off, buffered) (is_writable-enable sys c.chan)
]

nil_of_length : (xs : List ℕ) → length xs ≡ 0 → xs ≡ []
nil_of_length [] h = refl
nil_of_length (x ∷ xs) h = absurd (omega arith)

-- From `c`, with `d` on the way and `out` bytes written, to a sound connection.
pub record Forwards (c : TcpConn) (d : List ℕ) (r : Option (TcpConn × List Effect)) : Type 0 where
  pub final : TcpConn
  pub effects : List Effect
  pub returns : r ≡ some (final, effects)
  pub sound : IsSound final
  pub in_order : transmitted effects ++ waiting final ≡ waiting c ++ d
  pub same_status : final.status ≡ c.status

module _ (sys : Backend) where
  queue_rest-Forwards :
      (d : List ℕ) {c : TcpConn}
      → IsSound c
      → Fits c.output_buffer (length d)
      → Forwards c d (queue_rest sys d c)
  unfolding queue_rest transmitted buffered
  queue_rest-Forwards d {c} s f = elim (Bool-cases (length d == 0)) [
    | inl z ↦ record {
      final = c;
      effects = [];
      returns = rw z;
      sound = s;
      in_order =
          sym (append-nil (waiting c))
          ∙ ap (λ x. waiting c ++ x) (sym (nil_of_length d (ground arith)));
      same_status = refl;
    }
    | inr nz ↦
        let (b, e, v, k) = write_lem d s.valid f in
        record {
          final = buffered sys b c;
          effects = high_water (buffer_length c.output_buffer) (length d) c;
          returns = rw nz (rw e refl);
          sound = record {
            valid = v;
            armed =
                is_writable-buffered sys b c
                ∙ sym (ap not (some_left (contents b) (waiting c) d k nz));
          };
          in_order = ap (λ x. x ++ contents b) (transmitted-high_water _ _ c) ∙ k;
          same_status = refl;
        }
  ]

  direct-Forwards :
      (n : ℕ) (errno : Errno) (d : List ℕ) {c : TcpConn}
      → IsSound c
      → waiting c ≡ []
      → Fits c.output_buffer (length d)
      → n ≤ length d
      → Forwards c d (direct sys (some n) errno d c)
  unfolding direct transmitted
  direct-Forwards n errno d {c} s e f h =
      let q = queue_rest-Forwards (drop n d) s (omega (arith, length-drop n d)) in
      record {
        final = q.final;
        effects = transmit (take n d) ∷ done ++ q.effects;
        returns = rw q.returns refl;
        sound = q.sound;
        in_order =
            append_assoc (take n d) (transmitted (done ++ q.effects)) (waiting q.final)
            ∙ ap (λ x. take n d ++ (x ++ waiting q.final)) (transmitted-after _ _ q.effects refl)
            ∙ ap (λ x. take n d ++ x) (q.in_order ∙ ap (λ x. x ++ drop n d) e)
            ∙ take-append-drop n d
            ∙ sym (ap (λ x. x ++ d) e);
        same_status = q.same_status;
      }
    where
      done : List Effect
      done = on ((length d - n == 0) && c.write_complete_fn) queue_write_complete

  -- What the kernel may answer to `send` of `d` without breaking the connection.
  abbrev pub Accepts : SendResult → List ℕ → Type 0
  Accepts r d = elim r.sent [
    | none ↦ (not (is_rw_retriable r.errno) && is_broken r.errno) ≡ false
    | some n ↦ n ≤ length d
  ]

  module _ (d : List ℕ) {c : TcpConn} (s : IsSound c) (f : Fits c.output_buffer (length d)) where
    failed-Forwards :
        (errno : Errno)
        → (not (is_rw_retriable errno) && is_broken errno) ≡ false
        → Forwards c d (direct sys none errno d c)
    unfolding direct
    failed-Forwards errno h = rw h (queue_rest-Forwards d s f)

    answered-Forwards :
        (n : Option ℕ) (errno : Errno)
        → waiting c ≡ []
        → Accepts (record { sent = n; errno = errno }) d
        → Forwards c d (direct sys n errno d c)
    answered-Forwards none errno e h = failed-Forwards errno h
    answered-Forwards (some n) errno e h = direct-Forwards n errno d s e f h

    -- The two tests for a direct write agree: the write event is off when nothing waits.
    idle :
        not (is_writable c.chan) && (buffer_length c.output_buffer == 0) ≡ (length (waiting c) == 0)
    idle = rw (s.armed, buffer_length-contents s.valid) (ground arith)

    pub send_in_loop-Forwards :
        (r : SendResult)
        → is_disconnected c.status ≡ false
        → Accepts r d
        → Forwards c d (send_in_loop sys r d c)
    unfolding send_in_loop
    send_in_loop-Forwards r up h = rw up (
        rw idle (elim (Bool-cases (length (waiting c) == 0)) [
          | inl z ↦ rw z (answered-Forwards r.sent r.errno (nil_of_length _ ((==_iff _ 0).0 z)) h)
          | inr nz ↦ rw nz (queue_rest-Forwards d s f)
        ]))
