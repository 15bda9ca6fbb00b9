-- ===== src/DnsResolver/Tests.antt =====
-- The theorem about evpp/dns_resolver.cc at a look-up that times out and is answered too late.
use evpp.Base.{◌+◌, ◌≡◌, List, [], ◌∷◌, some}
use evpp.DnsResolver.{DnsResolver, Effect, found, new, start}
use evpp.DnsResolver.Answers.{
  Event, times_out, answers, is_cancelled, run, calls, frees, count, nobody_cancels, IsOwed,
  IsFinished, run-start,
}

abbrev too_late : List Event
too_late = times_out ∷ answers (found (7 ∷ [])) ∷ is_cancelled ∷ []

run-start_example :
    (r : DnsResolver) × (fx : List Effect) × (run too_late (start new) ≡ some (r, fx))
    × IsOwed (nobody_cancels too_late) (calls fx + count r.functor)
    × (frees fx + count r.dnsbase ≡ 1)
    × IsFinished r
run-start_example = run-start too_late
