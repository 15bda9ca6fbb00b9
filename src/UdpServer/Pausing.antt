-- ===== src/UdpServer/Pausing.antt =====
-- evpp/udp/udp_server.cc, Pause: where it meets the two tests of the loop.
use evpp.Base.{ℕ, ◌≤◌, ◌≡◌, ap, ◌∙◌, List, [], ◌∷◌, length, arith}
use evpp.UdpServer.{
  RecvThread, Status, running, paused, stopped, Position, run_test, leaving, ended, Received,
  thread_step, step_at, run_thread, pause_thread, resume_thread,
}
use evpp.UdpServer.Stopping.{run-ended}

-- Whether it receives anything after a pause, some steps, and a Continue
abbrev pub resumed : List Received → List Received → RecvThread → RecvThread × List (List ℕ × ℕ)
resumed rs rs' t = run_thread rs' (resume_thread (run_thread rs (pause_thread t)).0)

abbrev thread : ℕ → Status → Position → RecvThread
thread port s p = record { port = port; status = s; at = p }

run-leaving_paused :
    (port : ℕ) (rs : List Received)
    → 1 ≤ length rs
    → run_thread rs (thread port paused leaving) ≡ (thread port stopped ended, [])
unfolding run_thread thread_step step_at
run-leaving_paused port [] h = absurd (omega arith)
run-leaving_paused port (r ∷ rs) h = run-ended rs port stopped

run-paused :
    (port : ℕ) (rs : List Received)
    → 2 ≤ length rs
    → run_thread rs (thread port paused run_test) ≡ (thread port stopped ended, [])
unfolding run_thread thread_step step_at
run-paused port [] h = absurd (omega arith)
run-paused port (r ∷ rs) h = run-leaving_paused port rs (omega arith)

-- A Pause that meets a thread between its test for a pause and its test for the end makes it end, as
-- if it had been stopped, once it has had two steps: after a Continue its status says that it runs, and
-- it never receives anything again. Continue asserts that the status says paused, which it does not
-- then; the assertion is taken to be compiled out.
pub resumed-ended :
    (t : RecvThread) (rs rs' : List Received)
    → t.at ≡ run_test
    → 2 ≤ length rs
    → resumed rs rs' t ≡ (record { port = t.port; status = running; at = ended }, [])
unfolding pause_thread resume_thread
resumed-ended t rs rs' e h =
    ap (λ p. resumed rs rs' (record t { at = p })) e
    ∙ ap (λ r. run_thread rs' (resume_thread r.0)) (run-paused t.port rs h)
    ∙ run-ended rs' t.port running
