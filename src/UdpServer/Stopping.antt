-- ===== src/UdpServer/Stopping.antt =====
-- evpp/udp/udp_server.cc, Stop: every thread ends.
use evpp.Base.{ℕ, ◌≤◌, ◌≡◌, refl, List, [], ◌∷◌, length, length-append, All, arith}
use evpp.UdpServer.{
  RecvThread, Position, pause_test, run_test, receiving, leaving, ended, Status, stopping, stopped,
  Received, datagram, retriable, fails, handed, step_at, thread_step, run_thread, stop_thread,
}

-- The thread is in its loop, or just behind it.
pub data IsLooping : Position → Type 0 where
  at_pause_test : IsLooping pause_test
  at_run_test : IsLooping run_test
  at_receiving : IsLooping receiving
  at_leaving : IsLooping leaving

-- The steps that a thread still makes when it has been told to stop
abbrev pub left : {p : Position} → IsLooping p → ℕ
left at_pause_test = 3
left at_run_test = 2
left at_receiving = 4
left at_leaving = 1

-- It has ended, and handed over so many datagrams at most.
pub record HasStopped (n : ℕ) (r : RecvThread × List (List ℕ × ℕ)) : Type 0 where
  pub at_end : r.0.at ≡ ended
  pub status : r.0.status ≡ stopped
  pub few : length r.1 ≤ n

pub run-ended :
    (rs : List Received) (port : ℕ) (s : Status)
    → run_thread rs (record { port = port; status = s; at = ended })
      ≡ (record { port = port; status = s; at = ended }, [])
unfolding run_thread thread_step step_at
run-ended [] port s = refl
run-ended (r ∷ rs) port s = run-ended rs port s

length-handed : (r : Received) → length (handed r) ≤ 1
length-handed (datagram d hash) = omega arith
length-handed retriable = omega arith
length-handed fails = omega arith

abbrev thread : ℕ → Status → Position → RecvThread
thread port s p = record { port = port; status = s; at = p }

run-leaving :
    (port : ℕ) (rs : List Received)
    → 1 ≤ length rs
    → HasStopped 0 (run_thread rs (thread port stopping leaving))
unfolding run_thread thread_step step_at
run-leaving port [] h = absurd (omega arith)
run-leaving port (r ∷ rs) h =
    rw (run-ended rs port stopped) (record { at_end = refl; status = refl; few = omega arith })

run-run_test :
    (port : ℕ) (rs : List Received)
    → 2 ≤ length rs
    → HasStopped 0 (run_thread rs (thread port stopping run_test))
unfolding run_thread thread_step step_at
run-run_test port [] h = absurd (omega arith)
run-run_test port (r ∷ rs) h = run-leaving port rs (omega arith)

run-pause_test :
    (port : ℕ) (rs : List Received)
    → 3 ≤ length rs
    → HasStopped 0 (run_thread rs (thread port stopping pause_test))
unfolding run_thread thread_step step_at
run-pause_test port [] h = absurd (omega arith)
run-pause_test port (r ∷ rs) h = run-run_test port rs (omega arith)

-- The last call of recvfrom
run-receiving :
    (port : ℕ) (rs : List Received)
    → 4 ≤ length rs
    → HasStopped 1 (run_thread rs (thread port stopping receiving))
unfolding run_thread thread_step step_at
run-receiving port [] h = absurd (omega arith)
run-receiving port (r ∷ rs) h =
    let s = run-pause_test port rs (omega arith) in
    record {
      at_end = s.at_end;
      status = s.status;
      few = omega (
        arith,
        length-append (handed r) (run_thread rs (thread port stopping pause_test)).1,
        length-handed r,
        s.few,
      );
    }

weaker : (r : RecvThread × List (List ℕ × ℕ)) → HasStopped 0 r → HasStopped 1 r
weaker r s = record { at_end = s.at_end; status = s.status; few = omega (arith, s.few) }

run-stopping :
    (port : ℕ) (p : Position) (l : IsLooping p) (rs : List Received)
    → left l ≤ length rs
    → HasStopped 1 (run_thread rs (thread port stopping p))
run-stopping port _ at_pause_test rs h = weaker _ (run-pause_test port rs h)
run-stopping port _ at_run_test rs h = weaker _ (run-run_test port rs h)
run-stopping port _ at_receiving rs h = run-receiving port rs h
run-stopping port _ at_leaving rs h = weaker _ (run-leaving port rs h)

-- A thread with the answers that recvfrom gives it after a Stop, of which four are enough
abbrev pub Stoppable : RecvThread × List Received → Type 0
Stoppable (t, rs) = IsLooping t.at × (4 ≤ length rs)

-- The threads of a server after the Stop of a server and their own steps; each has its own status.
abbrev pub threads : List (RecvThread × List Received) → List RecvThread
threads [] = []
threads ((t, rs) ∷ ts) = t ∷ threads ts

abbrev pub run_threads : List (RecvThread × List Received) → List (RecvThread × List (List ℕ × ℕ))
run_threads [] = []
run_threads ((t, rs) ∷ ts) = run_thread rs (stop_thread t) ∷ run_threads ts

left-four : (p : Position) (l : IsLooping p) → left l ≤ 4
left-four _ at_pause_test = omega arith
left-four _ at_run_test = omega arith
left-four _ at_receiving = omega arith
left-four _ at_leaving = omega arith

-- Stop ends every thread that is in its loop, paused or not and wherever it stands: after four steps
-- of its own it has ended and stored kStopped, which the wait of Stop is for, whatever recvfrom
-- returns, and it has handed over one datagram at most.
pub run-HasStopped :
    (ts : List (RecvThread × List Received))
    → All Stoppable ts
    → All (HasStopped 1) (run_threads ts)
unfolding stop_thread
run-HasStopped [] h = tt
run-HasStopped ((t, rs) ∷ ts) ((l, four), h) =
    (run-stopping t.port t.at l rs (omega (arith, left-four t.at l)), run-HasStopped ts h)
