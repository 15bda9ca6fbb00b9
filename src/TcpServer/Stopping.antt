-- ===== src/TcpServer/Stopping.antt =====
-- evpp/tcp_server.cc: from `Stop` to the stopped callback.
use evpp.Base.{
  ℕ, ◌≡◌, refl, sym, ap, ◌∙◌, Bool, true, false, not, List, [], ◌∷◌, ◌++◌, append-nil, Option, none,
  some, ◌==◌, if◌then◌else◌, inl, inr, Bool-cases, All, ==_refl,
}
use evpp.EventLoop.{is_empty, stopping, stopped}
use evpp.TcpConn.{connected, disconnecting, is_connected}
use evpp.ThreadPool.{ThreadPool}
use evpp.TcpServer.{
  TcpServer, Conn, Effect, close, call_stopped, on, sub_status_null, stopping_listener,
  stop_thread_pool, stop, stop_in_loop, close_all, on_attached, attach_conn,
}
use evpp.TcpServer.Removal.{
  remove_all, erase_all, has, finished, is_empty-nil, erase_all-nil, remove_all-done,
  remove_all-lem, remove_all-more, is_empty-middle,
}

-- A connection after `StopInLoop` has seen it, if its loop is another.
abbrev told_one : Conn → Conn
told_one c = if is_connected c.status then record c { status = disconnecting } else c

abbrev told : List Conn → List Conn
told [] = []
told (c ∷ cs) = told_one c ∷ told cs

-- The connected ones are told to close.
abbrev pub closes : List Conn → List Effect
closes [] = []
closes (c ∷ cs) = if is_connected c.status then close c.id ∷ closes cs else closes cs

close_all-lem :
    (immediate : Bool) (base : ℕ) (cs : List Conn)
    → All (λ c. (c.io_loop == base) ≡ false) cs
    → close_all immediate base cs ≡ some (told cs, closes cs)
unfolding close_all
close_all-lem immediate base [] a = refl
close_all-lem immediate base (c ∷ cs) a = elim (Bool-cases (is_connected c.status)) [
  | inl e ↦ rw e rw a.0 rw (close_all-lem immediate base cs a.1) refl
  | inr e ↦ rw e rw (close_all-lem immediate base cs a.1) refl
]

told-has :
    (is : List ℕ) (cs : List Conn)
    → All (λ c. has is c.id ≡ true) cs
    → All (λ c. has is c.id ≡ true) (told cs)
told-has is [] a = tt
told-has is (c ∷ cs) a = (same_id (is_connected c.status), told-has is cs a.1)
  where
    same_id : (b : Bool) → has is (if b then record c { status = disconnecting } else c).id ≡ true
    same_id true = a.0
    same_id false = a.0

told-is_empty : (cs : List Conn) → is_empty (told cs) ≡ is_empty cs
told-is_empty [] = refl
told-is_empty (c ∷ cs) = refl

-- A server that has its listener and its thread pool, and whose connections are all on other loops,
-- stops: `StopInLoop` succeeds, lets go of the listener and tells each connected one to close; once
-- each connection has been removed, in any order, the stopped callback has been called once, as the
-- last effect, the thread pool is gone, no connection is left and the status is stopped.
pub stop_completes :
    (immediate cb : Bool) (s : TcpServer) (accepting : Bool) (p : ThreadPool) (is : List ℕ)
    → s.listener ≡ some accepting
    → s.tpool ≡ some p
    → s.stopped_cb ≡ false
    → All (λ c. (c.io_loop == s.base_loop) ≡ false) s.connections
    → All (λ c. has is c.id ≡ true) s.connections
    → (s' : TcpServer) × (es es' : List Effect) × (stop_in_loop immediate cb (stop s)
        ≡ some (s', es))
      × (s'.listener ≡ none)
      × (remove_all is s'
          ≡ some (
            record s {
              status = stopped;
              substatus = sub_status_null;
              listener = none;
              tpool = none;
              connections = [];
            },
            es',
          ))
      × (es ++ es' ≡ closes s.connections ++ on cb call_stopped)
unfolding stop stop_in_loop stop_thread_pool finished
stop_completes immediate cb s accepting p is l t fresh away all =
    elim (Bool-cases (is_empty s.connections)) [
      | inl z ↦
          let e = is_empty-nil s.connections z in
          let s' : TcpServer = record s {
            status = stopped;
            substatus = sub_status_null;
            listener = none;
            tpool = none;
          } in
          (
            s',
            on cb call_stopped,
            [],
            rw l rw z rw t refl,
            refl,
            remove_all-done is s' refl e
                ∙ ap (λ (cs : List Conn). some (record s' { connections = cs }, [])) e,
            append-nil (on cb call_stopped) ∙ ap (λ cs. closes cs ++ on cb call_stopped) (sym e),
          )
      | inr z ↦
          let s' : TcpServer = record s {
            status = stopping;
            substatus = stopping_listener;
            listener = none;
            connections = told s.connections;
            stopped_cb = cb;
          } in
          (
            s',
            closes s.connections,
            on cb call_stopped,
            rw l rw z rw (close_all-lem immediate s.base_loop s.connections away) refl,
            refl,
            remove_all-lem is s' p t refl (told-is_empty s.connections ∙ z)
                  (erase_all-nil is (told s.connections) (told-has is s.connections all))
                ∙ ap
                    (λ (b : Bool).
                      some (record (finished s') { stopped_cb = b }, on cb call_stopped))
                    (sym fresh),
            refl,
          )
    ]

nothing : Option (List Conn × List Effect)
nothing = none

close_all-freed :
    (base : ℕ) (before : List Conn) (c : Conn) (after : List Conn)
    → is_connected c.status ≡ true
    → (c.io_loop == base) ≡ true
    → close_all true base (before ++ c ∷ after) ≡ none
unfolding close_all nothing
close_all-freed base [] c after up own = rw up rw own refl
close_all-freed base (b ∷ before) c after up own =
    rw (close_all-freed base before c after up own)
      (any_branch (not (is_connected b.status)) (not (b.io_loop == base)))
  where
    any_branch : (x y : Bool) → (if x then none else if y then none else none) ≡ nothing
    any_branch true y = refl
    any_branch false true = refl
    any_branch false false = refl

-- On a loop that runs tasks at once, `StopInLoop` with a connected connection on the server's own
-- loop uses a node of the table that its removal has freed.
pub stop_frees_node :
    (cb : Bool) (s : TcpServer) (accepting : Bool) (before : List Conn) (c : Conn)
    (after : List Conn)
    → s.listener ≡ some accepting
    → s.connections ≡ before ++ c ∷ after
    → is_connected c.status ≡ true
    → (c.io_loop == s.base_loop) ≡ true
    → stop_in_loop true cb (stop s) ≡ none
unfolding stop stop_in_loop
stop_frees_node cb s accepting before c after l e up own =
    rw l rw (ap is_empty e ∙ is_empty-middle before c after) rw
      (ap (close_all true s.base_loop) e ∙ close_all-freed s.base_loop before c after up own) refl

-- If the only connection is not connected, as one that its loop has not attached yet, `StopInLoop`
-- sends nothing to any loop, and attached after it the connection is connected while the server
-- waits.
pub stop_waits :
    (immediate cb : Bool) (s : TcpServer) (accepting : Bool) (c : Conn)
    → s.listener ≡ some accepting
    → s.connections ≡ c ∷ []
    → is_connected c.status ≡ false
    → (s' : TcpServer) × (stop_in_loop immediate cb (stop s) ≡ some (s', []))
      × (s'.connections ≡ c ∷ [])
      × ((on_attached c.id s').status ≡ stopping)
      × ((on_attached c.id s').connections ≡ record c { status = connected } ∷ [])
unfolding stop stop_in_loop close_all on_attached attach_conn
stop_waits immediate cb s accepting c l e idle = (
  record s {
    status = stopping;
    substatus = stopping_listener;
    listener = none;
    connections = c ∷ [];
    stopped_cb = cb;
  },
  rw l rw (ap is_empty e) rw (ap (close_all immediate s.base_loop) e) rw idle refl,
  refl,
  refl,
  rw (==_refl c.id) refl,
)

told-middle :
    (before : List Conn) (c : Conn) (after : List Conn)
    → told (before ++ c ∷ after) ≡ told before ++ told_one c ∷ told after
told-middle [] c after = refl
told-middle (b ∷ before) c after =
    ap (λ (cs : List Conn). told_one b ∷ cs) (told-middle before c after)

-- A server does not stop before its last connection is removed: after the `StopInLoop` of a server that has its listener and whose
-- connections are all on other loops, while any connection has not been removed, the removals succeed
-- and have no effect beyond the table: the stopped callback is kept, the thread pool is as it was and
-- the status is stopping.
pub stop_holds :
    (immediate cb : Bool) (s : TcpServer) (accepting : Bool) (before : List Conn) (c : Conn)
    (after : List Conn) (is : List ℕ)
    → s.listener ≡ some accepting
    → All (λ d. (d.io_loop == s.base_loop) ≡ false) s.connections
    → s.connections ≡ before ++ c ∷ after
    → has is c.id ≡ false
    → (s' w : TcpServer) × (stop_in_loop immediate cb (stop s) ≡ some (s', closes s.connections))
      × (remove_all is s' ≡ some (w, []))
      × (w.stopped_cb ≡ cb)
      × (w.tpool ≡ s.tpool)
      × (w.status ≡ stopping)
unfolding stop stop_in_loop
stop_holds immediate cb s accepting before c after is l away e out = (
  waiting,
  record waiting { connections = erase_all is (told s.connections) },
  rw l rw (ap is_empty e ∙ is_empty-middle before c after) rw
      (close_all-lem immediate s.base_loop s.connections away) refl,
  remove_all-more is waiting (told before) (told_one c) (told after) refl
      (ap told e ∙ told-middle before c after) (same_id (is_connected c.status)),
  refl,
  refl,
  refl,
)
  where
    waiting : TcpServer
    waiting = record s {
      status = stopping;
      substatus = stopping_listener;
      listener = none;
      connections = told s.connections;
      stopped_cb = cb;
    }

    same_id : (b : Bool) → has is (if b then record c { status = disconnecting } else c).id ≡ false
    same_id true = out
    same_id false = out
