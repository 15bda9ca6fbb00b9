-- ===== src/TcpClient/Trying.antt =====
-- evpp/tcp_client.cc and connector.cc: a client that reconnects keeps trying.
use mathlib.Core.Bool.{true≢false}
use evpp.Base.{
  ℕ, ◌≡◌, refl, sym, ap, ◌∙◌, Bool, true, false, List, [], ◌∷◌, ◌++◌, Option, none, some, ◌&&◌,
  if◌then◌else◌, ◌>>=◌, inl, inr, subst, some-inj, Bool-cases, ap₂,
}
use evpp.Errno.{Errno, etimedout}
use evpp.FdChannel.{FdChannel, Backend}
use evpp.TcpConn.{TcpConn}
use evpp.Connector.{
  Connector, Dial, Status, disconnected, connecting, dns_resolving, dns_resolved, connected,
  is_resolving, is_disconnected, give_up, hand_over, handed, silence, wait_writable, given_up,
  bind_result,
}
use evpp.Connector
use evpp.TcpClient.{
  TcpClient, Effect, retry_start, connect_again, handle_write, on_connect_timeout, on_dns_resolved,
  on_remove_connection, new,
}
use evpp.TcpClient.Connecting.{
  Phase, waiting, resolving, dialling, up, IsTrying, Tries, handle_error-Tries, connect-Tries,
  start-Tries, writable-Tries,
}

-- What happens to the client: the timer of the attempt, the socket, the resolver, the timer of
-- `RunAfter`, the end of the connection. The connection callback leaves the client alone.
pub data Event : Type 0 where
  times_out : Event
  becomes_writable : Option Errno → Event
  is_resolved : Dial → Errno → List ℕ → Event
  retries : Dial → Event
  is_lost : Dial → Event

module _ (sys : Backend) where
  abbrev pub nothing : TcpClient → Option (TcpClient × List Effect)
  nothing w = some (w, [])

  abbrev pub written :
      Option Errno → Option FdChannel → TcpClient → Option (TcpClient × List Effect)
  written err none w = nothing w
  written err (some ch) w = if ch.write_fn then handle_write sys false err w else nothing w

  abbrev pub lost : Dial → Option TcpConn → TcpClient → Option (TcpClient × List Effect)
  lost d none w = nothing w
  lost d (some c) w = on_remove_connection sys false d w

  abbrev pub awaits_dns : Connector → Bool
  awaits_dns c = is_resolving c.status && c.dns_resolver

  -- An event that cannot happen in a state does nothing: libevent calls back for a timer and a
  -- channel that are there, the resolver once.
  abbrev pub step : Event → TcpClient → Option (TcpClient × List Effect)
  step times_out w = if w.connector.timer then on_connect_timeout sys false w else nothing w
  step (becomes_writable err) w = written err w.connector.chan w
  step (is_resolved d e addrs) w =
      if awaits_dns w.connector then on_dns_resolved sys false d e addrs w else nothing w
  step (retries d) w = if w.retry then retry_start sys false d w else nothing w
  step (is_lost d) w = lost d w.conn w

  abbrev pub run : List Event → TcpClient → Option (TcpClient × List Effect)
  run [] w = some (w, [])
  run (e ∷ es) w = step e w >>= λ (w', fx). run es w' >>= λ (w'', fx'). some (w'', fx ++ fx')

  nothing-Tries : (w : TcpClient) → IsTrying w → Tries (nothing w)
  nothing-Tries w t = (w, [], refl, t)

  take-Tries :
      (b : Bool) (r q : Option (TcpClient × List Effect))
      → b ≡ true
      → Tries r
      → Tries (if b then r else q)
  take-Tries true r q e t = t
  take-Tries false r q e t = absurd (true≢false (sym e))

  skip-Tries :
      (b : Bool) (r q : Option (TcpClient × List Effect))
      → b ≡ false
      → Tries q
      → Tries (if b then r else q)
  skip-Tries true r q e t = absurd (true≢false e)
  skip-Tries false r q e t = t

  times_out-Tries : (w : TcpClient) → IsTrying w → Phase w → Tries (step times_out w)
  unfolding on_connect_timeout
  times_out-Tries w t (waiting s stopped r c) = skip-Tries _ _ _ stopped (nothing-Tries w t)
  times_out-Tries w t (resolving s timer dns r c) =
      take-Tries _ _ _ timer (handle_error-Tries sys etimedout w t.auto t.held c timer)
  times_out-Tries w t (dialling s timer ch o r c) =
      take-Tries _ _ _ timer (handle_error-Tries sys etimedout w t.auto t.held c timer)
  times_out-Tries w t (up s stopped r c e ch o off) = skip-Tries _ _ _ stopped (nothing-Tries w t)

  callback-Tries :
      (err : Option Errno) (w : TcpClient) (ch : FdChannel)
      → IsTrying w
      → w.connector.chan ≡ some ch
      → ch.write_fn ≡ true
      → Phase w
      → Tries (handle_write sys false err w)
  unfolding handle_write
  callback-Tries err w ch t e on (waiting s timer r c) =
      take-Tries _ _ _ (ap is_disconnected s) (nothing-Tries w t)
  callback-Tries err w ch t e on (resolving s timer dns r c) =
      skip-Tries _ _ _ (ap is_disconnected s)
        (writable-Tries sys err w ch t.auto t.held c r timer e)
  callback-Tries err w ch t e on (dialling s timer ch' o r c) =
      skip-Tries _ _ _ (ap is_disconnected s)
        (writable-Tries sys err w ch' t.auto t.held c r timer o)
  callback-Tries err w ch t e on (up s timer r c e' ch' o off) =
      absurd (true≢false (sym on ∙ ap (λ (x : FdChannel). x.write_fn) (some-inj (sym e ∙ o)) ∙ off))

  becomes_writable-Tries :
      (err : Option Errno) (w : TcpClient) → IsTrying w → Tries (step (becomes_writable err) w)
  becomes_writable-Tries err w t = by_chan w.connector.chan refl
    where
      by_chan : (o : Option FdChannel) → w.connector.chan ≡ o → Tries (written err o w)
      by_chan none e = nothing-Tries w t
      by_chan (some ch) e = elim (Bool-cases ch.write_fn) [
        | inl on ↦ take-Tries ch.write_fn _ _ on (callback-Tries err w ch t e on t.phase)
        | inr off ↦ skip-Tries ch.write_fn _ _ off (nothing-Tries w t)
      ]

  is_resolved-Tries :
      (d : Dial) (e : Errno) (addrs : List ℕ) (w : TcpClient)
      → IsTrying w
      → Phase w
      → Tries (step (is_resolved d e addrs) w)
  unfolding on_dns_resolved
  is_resolved-Tries d e addrs w t (waiting s timer r c) =
      skip-Tries _ _ _ (ap (λ (x : Status). is_resolving x && w.connector.dns_resolver) s)
        (nothing-Tries w t)
  is_resolved-Tries d e addrs w t (dialling s timer ch o r c) =
      skip-Tries _ _ _ (ap (λ (x : Status). is_resolving x && w.connector.dns_resolver) s)
        (nothing-Tries w t)
  is_resolved-Tries d e addrs w t (up s timer r c e' ch o off) =
      skip-Tries _ _ _ (ap (λ (x : Status). is_resolving x && w.connector.dns_resolver) s)
        (nothing-Tries w t)
  is_resolved-Tries d e addrs w t (resolving s timer dns r c) =
      take-Tries _ _ _ (ap₂ ◌&&◌ (ap is_resolving s) dns) (by_addrs addrs)
    where
      by_addrs : (addrs : List ℕ) → Tries (on_dns_resolved sys false d e addrs w)
      by_addrs [] = handle_error-Tries sys e w t.auto t.held c timer
      by_addrs (a ∷ rest) =
          connect-Tries sys d
            (record w { connector = record w.connector { status = dns_resolved; raddr = some a } })
            t.auto t.held c r timer

  retries-Tries : (d : Dial) (w : TcpClient) → IsTrying w → Phase w → Tries (step (retries d) w)
  unfolding retry_start
  retries-Tries d w t (waiting s timer r c) =
      take-Tries _ _ _ r (start-Tries sys d (record w { retry = false }) t.auto t.held c refl)
  retries-Tries d w t (resolving s timer dns r c) = skip-Tries _ _ _ r (nothing-Tries w t)
  retries-Tries d w t (dialling s timer ch o r c) = skip-Tries _ _ _ r (nothing-Tries w t)
  retries-Tries d w t (up s timer r c e ch o off) = skip-Tries _ _ _ r (nothing-Tries w t)

  again-Tries :
      (d : Dial) (w : TcpClient)
      → w.auto_reconnect ≡ true
      → w.conn ≡ none
      → w.retry ≡ false
      → Tries (connect_again sys false d w)
  unfolding connect_again
  again-Tries d w auto down idle =
      start-Tries sys d (record w { connector = Connector.new w.remote; held = true }) auto refl
        down idle

  no_conn-Tries : (d : Dial) (w : TcpClient) → IsTrying w → w.conn ≡ none → Tries (lost d w.conn w)
  no_conn-Tries d w t e = subst (λ o. Tries (lost d o w)) (sym e) (nothing-Tries w t)

  is_lost-Tries : (d : Dial) (w : TcpClient) → IsTrying w → Phase w → Tries (step (is_lost d) w)
  unfolding on_remove_connection
  is_lost-Tries d w t (waiting s timer r c) = no_conn-Tries d w t c
  is_lost-Tries d w t (resolving s timer dns r c) = no_conn-Tries d w t c
  is_lost-Tries d w t (dialling s timer ch o r c) = no_conn-Tries d w t c
  is_lost-Tries d w t (up s timer r c e ch o off) =
      subst (λ x. Tries (lost d x w)) (sym e)
        (take-Tries w.auto_reconnect _ _ t.auto
          (again-Tries d (record w { conn = none }) t.auto refl r))

  step-Tries : (e : Event) (w : TcpClient) → IsTrying w → Tries (step e w)
  step-Tries times_out w t = times_out-Tries w t t.phase
  step-Tries (becomes_writable err) w t = becomes_writable-Tries err w t
  step-Tries (is_resolved d e addrs) w t = is_resolved-Tries d e addrs w t t.phase
  step-Tries (retries d) w t = retries-Tries d w t t.phase
  step-Tries (is_lost d) w t = is_lost-Tries d w t t.phase

  run-Tries : (es : List Event) (w : TcpClient) → IsTrying w → Tries (run es w)
  run-Tries [] w t = (w, [], refl, t)
  run-Tries (e ∷ es) w t =
      let (w', fx, r, t') = step-Tries e w t in
      let (w'', fx', r', t'') = run-Tries es w' t' in (w'', fx ++ fx', rw r rw r' refl, t'')

  -- After `Connect`, whatever the kernel, libevent and the resolver answer and in whatever order
  -- they call back, no null pointer is used, and a client that reconnects has always an attempt
  -- under its timer, a retry that is scheduled or a connection.
  pub connect_again-run :
      (addr : Option ℕ) (d : Dial) (es : List Event)
      → Tries (connect_again sys false d (new addr) >>= λ (w, fx). run es w)
  unfolding new
  connect_again-run addr d es =
      let (w, fx, r, t) = again-Tries d (new addr) refl refl refl in rw r (run-Tries es w t)
