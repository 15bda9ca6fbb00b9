-- ===== src/TcpClient/Leaving.antt =====
-- evpp/tcp_client.cc and connector.cc: what `Disconnect` leaves behind.
use mathlib.Core.Bool.{true≢false}
use evpp.Base.{
  ◌≡◌, refl, sym, ap, ◌∙◌, Bool, true, false, List, [], ◌∷◌, ◌++◌, Option, none, some, ◌&&◌, ◌||◌,
  if◌then◌else◌, subst, Bool-cases, inl, inr, is_none, some-inj,
}
use evpp.FdChannel.{FdChannel, Backend}
use evpp.TcpConn.{TcpConn}
use evpp.Connector.{Status, is_connected, is_resolving, is_disconnected, cancel, silence_if}
use evpp.TcpClient.{TcpClient, Effect, then_do, disconnect_in_loop, leave_connector, close_conn}
use evpp.TcpClient.Connecting.{Phase, waiting, resolving, dialling, up, IsTrying, silenced}
use evpp.TcpClient.Trying.{
  Event, times_out, becomes_writable, is_resolved, retries, is_lost, run, step, nothing, written,
  lost,
}

-- Nothing can call back.
record IsQuiet (w : TcpClient) : Type 0 where
  timer : w.connector.timer ≡ false
  dns : is_resolving w.connector.status && w.connector.dns_resolver ≡ false
  idle : w.retry ≡ false
  alone : w.conn ≡ none
  mute : (ch : FdChannel) → w.connector.chan ≡ some ch → ch.write_fn ≡ false

module _ (sys : Backend) where
  skip :
      (b : Bool) (w : TcpClient) (r : Option (TcpClient × List Effect))
      → b ≡ false
      → (if b then r else nothing sys w) ≡ some (w, [])
  skip true w r e = absurd (true≢false e)
  skip false w r e = refl

  step-quiet : (e : Event) (w : TcpClient) → IsQuiet w → step sys e w ≡ some (w, [])
  step-quiet times_out w q = skip _ w _ q.timer
  step-quiet (becomes_writable err) w q = by_chan w.connector.chan refl
    where
      by_chan : (o : Option FdChannel) → w.connector.chan ≡ o → written sys err o w ≡ some (w, [])
      by_chan none e = refl
      by_chan (some ch) e = skip _ w _ (q.mute ch e)
  step-quiet (is_resolved d e addrs) w q = skip _ w _ q.dns
  step-quiet (retries d) w q = skip _ w _ q.idle
  step-quiet (is_lost d) w q = ap (λ o. lost sys d o w) q.alone

  run-quiet : (es : List Event) (w : TcpClient) → IsQuiet w → run sys es w ≡ some (w, [])
  run-quiet [] w q = refl
  run-quiet (e ∷ es) w q = rw (step-quiet e w q) rw (run-quiet es w q) refl

  -- The client after `Disconnect`
  abbrev pub quit : TcpClient → TcpClient
  quit w = (leave_connector sys (record w { auto_reconnect = false; conn = none })).0

  abbrev pub parting : TcpClient → List Effect
  parting w =
      (close_conn sys w.conn (record w { auto_reconnect = false })).1
      ++ (leave_connector sys (record w { auto_reconnect = false; conn = none })).1

  close_conn-forgets :
      (o : Option TcpConn) (w : TcpClient)
      → w.conn ≡ o
      → (close_conn sys o w).0 ≡ record w { conn = none }
  unfolding close_conn
  close_conn-forgets none w e = ap (λ (o : Option TcpConn). record w { conn = o }) e
  close_conn-forgets (some c) w e = refl

  pub disconnect-run :
      (w : TcpClient) → w.held ≡ true → disconnect_in_loop sys w ≡ some (quit w, parting w)
  unfolding disconnect_in_loop
  disconnect-run w held =
      let w' : TcpClient = record w { auto_reconnect = false } in
      let es = (close_conn sys w.conn w').1 in
      ap
        (λ b.
          if b then then_do es (some (leave_connector sys (close_conn sys w.conn w').0)) else none)
        held
      ∙ ap (λ (x : TcpClient). then_do es (some (leave_connector sys x)))
          (close_conn-forgets w.conn w' refl)

  pub leave-keeps :
      (w : TcpClient)
      → is_connected w.connector.status || is_disconnected w.connector.status ≡ true
      → leave_connector sys w ≡ (record w { held = false }, [])
  unfolding leave_connector
  leave-keeps w e = rw e refl

  leave-cancels :
      (w : TcpClient)
      → is_connected w.connector.status || is_disconnected w.connector.status ≡ false
      → (leave_connector sys w).0
        ≡ record w { connector = (cancel sys w.connector).0; held = false }
  unfolding leave_connector
  leave-cancels w e = rw e refl

  quit-held : (w : TcpClient) → (quit w).held ≡ false
  quit-held w =
      elim (Bool-cases (is_connected w.connector.status || is_disconnected w.connector.status)) [
        | inl e ↦
            ap (λ (r : TcpClient × List Effect). r.0.held)
              (leave-keeps (record w { auto_reconnect = false; conn = none }) e)
        | inr e ↦
            ap (λ (x : TcpClient). x.held)
              (leave-cancels (record w { auto_reconnect = false; conn = none }) e)
      ]

  -- A second `Disconnect` uses the connector that the first has let go of.
  pub disconnect_twice :
      (w : TcpClient)
      → w.held ≡ true
      → (w' : TcpClient) × (fx : List Effect) × (disconnect_in_loop sys w ≡ some (w', fx))
        × (disconnect_in_loop sys w' ≡ none)
  disconnect_twice w held =
      (quit w, parting w, disconnect-run w held, unheld (quit w) (quit-held w))
    where
      unheld : (w : TcpClient) → w.held ≡ false → disconnect_in_loop sys w ≡ none
      unheld w e = unfold disconnect_in_loop in rw e refl

  silence_if-mute :
      (o : Option FdChannel) (ch : FdChannel) → silence_if sys o ≡ some ch → ch.write_fn ≡ false
  silence_if-mute none ch e = absurd (true≢false (ap is_none e))
  silence_if-mute (some c) ch e =
      sym (ap (λ (x : FdChannel). x.write_fn) (some-inj e)) ∙ silenced sys c

  cancelled-IsQuiet :
      (w : TcpClient)
      → is_connected w.connector.status || is_disconnected w.connector.status ≡ false
      → w.retry ≡ false
      → IsQuiet (quit w)
  unfolding cancel
  cancelled-IsQuiet w e idle =
      subst IsQuiet (sym (leave-cancels (record w { auto_reconnect = false; conn = none }) e))
        (record {
          timer = refl;
          dns = and_false (is_resolving w.connector.status);
          idle = idle;
          alone = refl;
          mute = silence_if-mute w.connector.chan;
        })
    where
      and_false : (b : Bool) → b && false ≡ false
      and_false true = refl
      and_false false = refl

  quit-IsQuiet : (w : TcpClient) → Phase w → w.retry ≡ false → IsQuiet (quit w)
  quit-IsQuiet w (waiting s timer r c) idle = absurd (true≢false (sym r ∙ idle))
  quit-IsQuiet w (resolving s timer dns r c) idle =
      cancelled-IsQuiet w (ap (λ (x : Status). is_connected x || is_disconnected x) s) idle
  quit-IsQuiet w (dialling s timer ch o r c) idle =
      cancelled-IsQuiet w (ap (λ (x : Status). is_connected x || is_disconnected x) s) idle
  quit-IsQuiet w (up s timer r c e ch o off) idle =
      subst IsQuiet
        (sym (
          ap (λ (x : TcpClient × List Effect). x.0)
            (leave-keeps (record w { auto_reconnect = false; conn = none })
              (ap (λ (x : Status). is_connected x || is_disconnected x) s))))
        (record {
          timer = timer;
          dns = ap (λ (x : Status). is_resolving x && w.connector.dns_resolver) s;
          idle = idle;
          alone = refl;
          mute = λ ch' o'. ap (λ (x : FdChannel). x.write_fn) (some-inj (sym o' ∙ o)) ∙ off;
        })

  -- The first `Disconnect` of a client that connects again by itself, so that it still holds its
  -- connector and waits, resolves, dials or is connected, succeeds and is final if no retry is
  -- scheduled: there is no connection, and nothing that happens to the client afterwards has an effect
  -- or changes it.
  pub disconnect_lem :
      (w : TcpClient) (es : List Event)
      → IsTrying w
      → w.retry ≡ false
      → (w' : TcpClient) × (fx : List Effect) × (disconnect_in_loop sys w ≡ some (w', fx))
        × (w'.conn ≡ none)
        × (run sys es w' ≡ some (w', []))
  disconnect_lem w es t idle =
      let q = quit-IsQuiet w t.phase idle in
      (quit w, parting w, disconnect-run w t.held, q.alone, run-quiet es (quit w) q)
