-- ===== src/TcpServer/Removal.antt =====
-- evpp/tcp_server.cc: the removals of connections that follow a `Stop`.
use mathlib.Core.Bool.{true≢false}
use evpp.Base.{
  ℕ, ◌≡◌, refl, sym, ap, ◌∙◌, Bool, true, false, List, [], ◌∷◌, ◌++◌, append-nil, Option, none,
  some, ◌&&◌, ◌||◌, ◌==◌, inl, inr, Bool-cases, All,
}
use evpp.EventLoop.{is_empty, stopped}
use evpp.ThreadPool.{ThreadPool}
use evpp.TcpServer.{
  TcpServer, Conn, Effect, call_stopped, on, is_stopping, sub_status_null, erase, remove_connection,
  stop_thread_pool,
}

-- The tasks of `RemoveConnection` for these connections, in order.
abbrev pub with_effects :
    List Effect → Option (TcpServer × List Effect) → Option (TcpServer × List Effect)
with_effects es none = none
with_effects es (some (s, es')) = some (s, es ++ es')

abbrev pub go_on :
    (TcpServer → Option (TcpServer × List Effect))
    → Option (TcpServer × List Effect)
    → Option (TcpServer × List Effect)
go_on more none = none
go_on more (some (s, es)) = with_effects es (more s)

abbrev pub remove_all : List ℕ → TcpServer → Option (TcpServer × List Effect)
remove_all [] s = some (s, [])
remove_all (i ∷ is) s = go_on (remove_all is) (remove_connection i s)

abbrev pub erase_all : List ℕ → List Conn → List Conn
erase_all [] cs = cs
erase_all (i ∷ is) cs = erase_all is (erase i cs)

abbrev pub has : List ℕ → ℕ → Bool
has [] j = false
has (i ∷ is) j = (j == i) || has is j

-- A server that has stopped, without connections.
unfoldable pub finished : TcpServer → TcpServer
finished s = record s {
  substatus = sub_status_null;
  tpool = none;
  stopped_cb = false;
  status = stopped;
  connections = [];
}

or_right : (b c : Bool) → b ≡ false → (b || c) ≡ true → c ≡ true
or_right true c h e = absurd (true≢false h)
or_right false c h e = e

pub is_empty-nil : (cs : List Conn) → is_empty cs ≡ true → cs ≡ []
is_empty-nil [] h = refl
is_empty-nil (c ∷ cs) h = absurd (true≢false (sym h))

erase-has :
    (i : ℕ) (is : List ℕ) (cs : List Conn)
    → All (λ c. has (i ∷ is) c.id ≡ true) cs
    → All (λ c. has is c.id ≡ true) (erase i cs)
unfolding erase
erase-has i is [] a = tt
erase-has i is (c ∷ cs) a = elim (Bool-cases (c.id == i)) [
  | inl e ↦ rw e (erase-has i is cs a.1)
  | inr e ↦ rw e (or_right (c.id == i) (has is c.id) e a.0, erase-has i is cs a.1)
]

pub erase_all-nil :
    (is : List ℕ) (cs : List Conn) → All (λ c. has is c.id ≡ true) cs → erase_all is cs ≡ []
erase_all-nil [] [] a = refl
erase_all-nil [] (c ∷ cs) a = absurd (true≢false (sym a.0))
erase_all-nil (i ∷ is) cs a = erase_all-nil is (erase i cs) (erase-has i is cs a)

remove_connection-last :
    (i : ℕ) (s : TcpServer) (p : ThreadPool)
    → s.tpool ≡ some p
    → is_stopping s.status ≡ true
    → is_empty (erase i s.connections) ≡ true
    → remove_connection i s ≡ some (finished s, on s.stopped_cb call_stopped)
unfolding remove_connection stop_thread_pool finished
remove_connection-last i s p t h z = rw h rw z rw t (
    ap
      (λ (cs : List Conn).
        some (record (finished s) { connections = cs }, on s.stopped_cb call_stopped))
      (is_empty-nil (erase i s.connections) z))

remove_connection-more :
    (i : ℕ) (s : TcpServer)
    → is_stopping s.status && is_empty (erase i s.connections) ≡ false
    → remove_connection i s ≡ some (record s { connections = erase i s.connections }, [])
unfolding remove_connection
remove_connection-more i s h = rw h refl

-- After the last removal nothing more happens.
pub remove_all-done :
    (is : List ℕ) (s : TcpServer)
    → is_stopping s.status ≡ false
    → s.connections ≡ []
    → remove_all is s ≡ some (s, [])
unfolding erase
remove_all-done [] s h e = refl
remove_all-done (i ∷ is) s h e =
    ap (go_on (remove_all is)) (
      remove_connection-more i s (rw h refl)
      ∙ ap (λ (cs : List Conn). some (record s { connections = cs }, [])) (ap (erase i) e ∙ sym e))
    ∙ ap (with_effects []) (remove_all-done is s h e)

pub remove_all-lem :
    (is : List ℕ) (s : TcpServer) (p : ThreadPool)
    → s.tpool ≡ some p
    → is_stopping s.status ≡ true
    → is_empty s.connections ≡ false
    → erase_all is s.connections ≡ []
    → remove_all is s ≡ some (finished s, on s.stopped_cb call_stopped)
unfolding finished
remove_all-lem [] s p t up e done = absurd (true≢false (sym (ap is_empty done) ∙ e))
remove_all-lem (i ∷ is) s p t up e done = elim (Bool-cases (is_empty (erase i s.connections))) [
  | inl z ↦
      ap (go_on (remove_all is)) (remove_connection-last i s p t up z)
      ∙ ap (with_effects (on s.stopped_cb call_stopped)) (remove_all-done is (finished s) refl refl)
      ∙ ap (λ es. some (finished s, es)) (append-nil (on s.stopped_cb call_stopped))
  | inr z ↦
      ap (go_on (remove_all is)) (remove_connection-more i s (rw up rw z refl))
      ∙ ap (with_effects [])
          (remove_all-lem is (record s { connections = erase i s.connections }) p t up z done)
]

pub is_empty-middle : (cs : List Conn) (c : Conn) (ds : List Conn) → is_empty (cs ++ c ∷ ds) ≡ false
is_empty-middle [] c ds = refl
is_empty-middle (b ∷ cs) c ds = refl

erase-middle :
    (i : ℕ) (before : List Conn) (c : Conn) (after : List Conn)
    → (c.id == i) ≡ false
    → erase i (before ++ c ∷ after) ≡ erase i before ++ c ∷ erase i after
unfolding erase
erase-middle i [] c after e = rw e refl
erase-middle i (b ∷ before) c after e = elim (Bool-cases (b.id == i)) [
  | inl t ↦ rw t (erase-middle i before c after e)
  | inr f ↦ rw f (ap (λ (cs : List Conn). b ∷ cs) (erase-middle i before c after e))
]

or_none : (b c : Bool) → (b || c) ≡ false → (b ≡ false) × (c ≡ false)
or_none true c h = absurd (true≢false h)
or_none false c h = (refl, h)

-- A connection that is not removed keeps the server waiting, without an effect.
pub remove_all-more :
    (is : List ℕ) (s : TcpServer) (before : List Conn) (c : Conn) (after : List Conn)
    → is_stopping s.status ≡ true
    → s.connections ≡ before ++ c ∷ after
    → has is c.id ≡ false
    → remove_all is s ≡ some (record s { connections = erase_all is s.connections }, [])
remove_all-more [] s before c after h e out = refl
remove_all-more (i ∷ is) s before c after h e out =
    ap (go_on (remove_all is)) (
      remove_connection-more i s
        (rw h (ap is_empty kept ∙ is_empty-middle (erase i before) c (erase i after))))
    ∙ ap (with_effects []) (
        remove_all-more is (record s { connections = erase i s.connections }) (erase i before) c
          (erase i after) h kept (or_none (c.id == i) (has is c.id) out).1)
  where
    kept : erase i s.connections ≡ erase i before ++ c ∷ erase i after
    kept = ap (erase i) e ∙ erase-middle i before c after (or_none (c.id == i) (has is c.id) out).0
