-- ===== src/UdpServer/Tests.antt =====
-- Each theorem about evpp/udp/udp_server.cc at threads of its own.
use evpp.Base.{◌≡◌, refl, List, [], ◌∷◌, All, arith}
use evpp.Base.Dictionary.{codes}
use evpp.UdpServer.{
  RecvThread, running, paused, pause_test, run_test, receiving, ended, Received, datagram,
  retriable,
}
use evpp.UdpServer.Stopping.{at_pause_test, at_receiving, HasStopped, run_threads, run-HasStopped}
use evpp.UdpServer.Pausing.{resumed, resumed-ended}

abbrev answers : List Received
answers = datagram (codes "query") 7 ∷ retriable ∷ datagram (codes "late") 7 ∷ retriable ∷ []

abbrev server : List (RecvThread × List Received)
server =
    (record { port = 53; status = running; at = receiving }, answers)
    ∷ (record { port = 5353; status = paused; at = pause_test }, answers)
    ∷ []

run-HasStopped_example : All (HasStopped 1) (run_threads server)
run-HasStopped_example =
    run-HasStopped server ((at_receiving, omega arith), ((at_pause_test, omega arith), tt))

abbrev thread : RecvThread
thread = record { port = 53; status = running; at = run_test }

resumed-ended_example :
    resumed answers answers thread ≡ (record { port = 53; status = running; at = ended }, [])
resumed-ended_example = resumed-ended thread answers answers refl (omega arith)
