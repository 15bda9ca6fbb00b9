-- ===== src/HttpcRequest/Tests.antt =====
-- The theorem about evpp/httpc/request.cc at a request of its own.
use evpp.Base.{true, false, List, [], ◌∷◌, arith}
use evpp.HttpcRequest.{Attempt, fails_early, responds, no_response, execute}
use evpp.HttpcRequest.Retrying.{deciding, before, Decides, execute-Decides}

abbrev later : List Attempt
later = no_response ∷ responds 200 ∷ fails_early ∷ []

execute-Decides_example :
    Decides true
      (deciding 3 (responds 503) later)
      (execute (responds 503 ∷ later) (before 0 3 false true))
execute-Decides_example = execute-Decides 3 0 false true (responds 503) later (omega arith)
