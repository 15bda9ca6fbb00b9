-- ===== src/DnsResolver.antt =====
-- evpp/dns_resolver.h and dns_resolver.cc, of the build that looks up asynchronously, on the loop's
-- thread. Effects are listed in order; `none` is a call through the timer when it is gone. The
-- functor is taken to leave the resolver alone.
pub mod Answers
mod Tests
use evpp.Base.{
  ℕ, Bool, true, false, List, [], ◌∷◌, ◌++◌, Option, none, some, ◌==◌, if◌then◌else◌, ◌>>=◌,
}

pub record DnsResolver : Type 0 where
  pub timer : Bool
  pub dnsbase : Bool
  -- The request has not been cancelled.
  pub dns_req : Bool
  pub functor : Bool
  pub addrs : List ℕ

pub data Effect : Type 0 where
  calls_functor : List ℕ → Effect
  cancels_request frees_base : Effect

-- What the callback of `evdns_getaddrinfo` is given.
pub data Answer : Type 0 where
  found : List ℕ → Answer
  no_addresses : Answer
  lookup_failed : ℕ → Answer
  -- EVUTIL_EAI_CANCEL
  cancelled : Answer

pub new : DnsResolver
new = record { timer = false; dnsbase = false; dns_req = false; functor = true; addrs = [] }

-- `Start`: `AsyncDNSResolve` with `AsyncWait`
unfoldable pub start : DnsResolver → DnsResolver
start r = record r { timer = true; dnsbase = true; dns_req = true }

-- `OnResolved()`
pub tell : DnsResolver → DnsResolver × List Effect
tell r = if r.functor then (record r { functor = false }, calls_functor r.addrs ∷ []) else (r, [])

-- `ClearTimer`
pub clear_timer : DnsResolver → Option DnsResolver
clear_timer r = if r.timer then some (record r { timer = false }) else none

abbrev pub also : Effect → DnsResolver × List Effect → DnsResolver × List Effect
also e (r, es) = (r, e ∷ es)

-- `evdns_base_free`, and then `OnResolved()`
abbrev pub free_base : DnsResolver → DnsResolver × List Effect
free_base r = also frees_base (tell (record r { dnsbase = false }))

-- The addresses that are not zero
abbrev pub usable : List ℕ → List ℕ
usable [] = []
usable (a ∷ rest) = if a == 0 then usable rest else a ∷ usable rest

-- `OnResolved` with the answer
pub on_resolved : Answer → DnsResolver → Option (DnsResolver × List Effect)
on_resolved cancelled r = some (free_base r)
on_resolved (lookup_failed err) r = clear_timer r >>= λ r'. some (free_base r')
on_resolved no_addresses r = clear_timer r >>= λ r'. some (free_base r')
on_resolved (found addrs) r =
    clear_timer (record r { addrs = r.addrs ++ usable addrs }) >>= λ r'. some (free_base r')

-- `OnTimeout`
pub on_timeout : DnsResolver → Option (DnsResolver × List Effect)
on_timeout r =
    clear_timer (record r { dns_req = false }) >>= λ r'. some (also cancels_request (tell r'))

-- `Cancel`, whose timer calls `OnCanceled`
pub cancel : DnsResolver → DnsResolver × List Effect
cancel r =
    if r.timer
    then (record r { timer = false; functor = false; dns_req = false }, cancels_request ∷ [])
    else (record r { functor = false }, [])
