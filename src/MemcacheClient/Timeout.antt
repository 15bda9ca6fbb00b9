-- ===== src/MemcacheClient/Timeout.antt =====
-- apps/evmc/memcache_client.cc, OnPacketTimeout: which commands a timeout takes.
use evpp.Base.{
  ℕ, ◌<◌, ◌≡◌, refl, ap, ◌∙◌, true, false, List, [], ◌∷◌, ◌==◌, ==_refl, All, Bool-cases, inl, inr,
  arith,
}
use evpp.MemcacheClient.{
  Command, MemcacheClient, timeout, should_retry, give_up, give_up_all, id_after, expire,
  packet_expired, on_packet_timeout,
}

-- The loop runs on as long as no command that it meets keeps the id that it looks for.
expire-all :
    (id : ℕ) (cs : List Command)
    → All (λ c. (id_after true c == id) ≡ false) cs
    → expire true id cs ≡ ([], give_up_all true timeout cs)
unfolding expire give_up_all
expire-all id [] h = refl
expire-all id (c ∷ cs) (h, hs) =
    rw h (ap (λ r. (r.0, give_up true timeout c ∷ r.1)) (expire-all id cs hs))

-- The id of a command that may be tried again is 0 when the loop looks at it.
retried_id :
    (id : ℕ) (c : Command) → should_retry c ≡ true → 0 < id → (id_after true c == id) ≡ false
retried_id id c r pos = rw r (ground arith)

other_id : (id : ℕ) (c : Command) → (c.id == id) ≡ false → 0 < id → (id_after true c == id) ≡ false
other_id id c d pos = elim (Bool-cases (should_retry c)) [
  | inl e ↦ rw e (ground arith)
  | inr e ↦ rw e d
]

-- The commands behind the first one have other ids.
abbrev pub Others : ℕ → List Command → Type 0
Others id cs = All (λ c. (c.id == id) ≡ false) cs

others :
    (id : ℕ) (cs : List Command)
    → 0 < id
    → Others id cs
    → All (λ c. (id_after true c == id) ≡ false) cs
others id [] pos o = tt
others id (c ∷ cs) pos (d, o) = (other_id id c d pos, others id cs pos o)

-- A timeout is meant for the command that has run longest. If that one may be tried again, its id is
-- reset before the loop compares it, so that the loop does not stop: every command that runs is
-- given up with it, however young it is.
pub on_packet_timeout-all :
    (c : Command) (cs : List Command) (m : MemcacheClient)
    → m.running ≡ c ∷ cs
    → should_retry c ≡ true
    → 0 < c.id
    → Others c.id cs
    → on_packet_timeout true c.id m
      ≡ (record m { running = []; timer_canceled = true }, give_up_all true timeout (c ∷ cs))
unfolding on_packet_timeout packet_expired
on_packet_timeout-all c cs m h r pos o =
    ap (λ rs. packet_expired true c.id rs m) h
    ∙ rw (==_refl c.id) (
        ap (λ e. (record m { running = e.0; timer_canceled = true }, e.1))
          (expire-all c.id (c ∷ cs) (retried_id c.id c r pos, others c.id cs pos o)))
