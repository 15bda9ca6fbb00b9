-- ===== src/MemcacheClient/Holding.antt =====
-- apps/evmc/memcache_client.cc: the commands that a client holds, one call at a time.
use evpp.Base.{
  ℕ, ◌+◌, ◌≡◌, refl, ap, ◌∙◌, Bool, true, false, List, [], ◌∷◌, ◌++◌, ◌==◌, if◌then◌else◌,
  Bool-cases, inl, inr, arith, ◌&&◌,
}
use evpp.MemcacheClient.{
  Command, Effect, leaves, launches, one_response, prefix_response, starts_timer,
  starts_connect_timer, MemcacheClient, next_id, with_id, arm, arm_connect, push_running_command,
  push_waiting_command, again, give_up, give_up_all, launch_all, on_client_connection,
  connect_expired, expire, packet_expired, Error, network, timeout, should_retry, id_after,
}

abbrev pub hits : ℕ → ℕ → ℕ
hits t k = if k == t then 1 else 0

-- How often a command stands in a list, and how often it has left
abbrev pub count : ℕ → List Command → ℕ
count t [] = 0
count t (c ∷ cs) = hits t c.tag + count t cs

abbrev pub left : ℕ → List Effect → ℕ
left t [] = 0
left t (leaves c o ∷ es) = hits t c.tag + left t es
left t (launches c ∷ es) = left t es
left t (one_response c r k v ∷ es) = left t es
left t (prefix_response c r k v ∷ es) = left t es
left t (starts_timer i ∷ es) = left t es
left t (starts_connect_timer i ∷ es) = left t es

abbrev pub held : ℕ → MemcacheClient → ℕ
held t m = count t m.running + count t m.waiting

-- What a call or an event makes of the commands that a client holds
abbrev pub Keeps : ℕ → ℕ → MemcacheClient × List Effect → Type 0
Keeps t n r = held t r.0 + left t r.1 ≡ n

count-append : (t : ℕ) (cs ds : List Command) → count t (cs ++ ds) ≡ count t cs + count t ds
count-append t [] ds = omega arith
count-append t (c ∷ cs) ds = omega (arith, count-append t cs ds)

pub left-append : (t : ℕ) (es fs : List Effect) → left t (es ++ fs) ≡ left t es + left t fs
left-append t [] fs = omega arith
left-append t (leaves c o ∷ es) fs = omega (arith, left-append t es fs)
left-append t (launches c ∷ es) fs = left-append t es fs
left-append t (one_response c r k v ∷ es) fs = left-append t es fs
left-append t (prefix_response c r k v ∷ es) fs = left-append t es fs
left-append t (starts_timer i ∷ es) fs = left-append t es fs
left-append t (starts_connect_timer i ∷ es) fs = left-append t es fs

arm-Keeps : (t : ℕ) (b : Bool) (id : ℕ) (m : MemcacheClient) → Keeps t (held t m) (arm b id m)
unfolding arm
arm-Keeps t b id m = elim (Bool-cases (b && m.timer_canceled)) [
  | inl e ↦ rw e (omega arith)
  | inr e ↦ rw e (omega arith)
]

arm_connect-Keeps :
    (t : ℕ) (b : Bool) (id : ℕ) (m : MemcacheClient) → Keeps t (held t m) (arm_connect b id m)
unfolding arm_connect
arm_connect-Keeps t b id m = elim (Bool-cases (b && m.con_timer_canceled)) [
  | inl e ↦ rw e (omega arith)
  | inr e ↦ rw e (omega arith)
]

-- A command keeps its tag when it gets an id.
with_id_lem :
    (t : ℕ) (c : Command) (m : MemcacheClient)
    → ((with_id c m).0.tag ≡ c.tag) × (held t (with_id c m).1 ≡ held t m)
unfolding with_id
with_id_lem t c m = elim (Bool-cases (c.id == 0)) [
  | inl e ↦ rw e (refl, refl)
  | inr e ↦ rw e (refl, refl)
]

pub push_running-Keeps :
    (t : ℕ) (b : Bool) (c : Command) (m : MemcacheClient)
    → Keeps t (held t m + count t (c ∷ [])) (push_running_command b c m)
unfolding push_running_command
push_running-Keeps t b c m =
    let w = with_id_lem t c m in
    omega (
      arith,
      w.1,
      count-append t (with_id c m).1.running ((with_id c m).0 ∷ []),
      arm-Keeps t b (with_id c m).0.id
          (record (with_id c m).1 { running = (with_id c m).1.running ++ (with_id c m).0 ∷ [] }),
      ap (hits t) w.0,
    )

pub push_waiting-Keeps :
    (t : ℕ) (b : Bool) (c : Command) (m : MemcacheClient)
    → Keeps t (held t m + count t (c ∷ [])) (push_waiting_command b c m)
unfolding push_waiting_command
push_waiting-Keeps t b c m = omega (
  arith,
  count-append t m.waiting (record c { id = next_id m } ∷ []),
  arm_connect-Keeps t b (next_id m)
      (record m { id_seq = next_id m; waiting = m.waiting ++ record c { id = next_id m } ∷ [] }),
)

left-give_up :
    (t : ℕ) (p : Bool) (e : Error) (c : Command) (es : List Effect)
    → left t (give_up p e c ∷ es) ≡ hits t c.tag + left t es
unfolding give_up again
left-give_up t p e c es = elim (Bool-cases (p && should_retry c)) [
  | inl h ↦ rw h refl
  | inr h ↦ rw h refl
]

left-give_up_all :
    (t : ℕ) (p : Bool) (e : Error) (cs : List Command) → left t (give_up_all p e cs) ≡ count t cs
unfolding give_up_all
left-give_up_all t p e [] = refl
left-give_up_all t p e (c ∷ cs) =
    left-give_up t p e c (give_up_all p e cs)
    ∙ ap (λ k. hits t c.tag + k) (left-give_up_all t p e cs)

launch_all-Keeps :
    (t : ℕ) (b : Bool) (cs : List Command) (m : MemcacheClient)
    → Keeps t (held t m + count t cs) (launch_all b cs m)
unfolding launch_all
launch_all-Keeps t b [] m = omega arith
launch_all-Keeps t b (c ∷ cs) m =
    let r = push_running_command b c m in
    omega (
      arith,
      push_running-Keeps t b c m,
      launch_all-Keeps t b cs (push_running_command b c m).0,
      left-append t (push_running_command b c m).1
          (launches (with_id c m).0 ∷ (launch_all b cs (push_running_command b c m).0).1),
    )

pub connection-Keeps :
    (t : ℕ) (b up : Bool) (m : MemcacheClient) → Keeps t (held t m) (on_client_connection b up m)
unfolding on_client_connection
connection-Keeps t b true m =
    omega (arith, launch_all-Keeps t b m.waiting (record m { waiting = [] }))
connection-Keeps t b false m = omega (
  arith,
  left-give_up_all t true network m.running,
  left-give_up_all t true network m.waiting,
  left-append t (give_up_all true network m.running) (give_up_all true network m.waiting),
)

pub connect_expired-Keeps :
    (t : ℕ) (p : Bool) (id : ℕ) (ws : List Command) (m : MemcacheClient)
    → m.waiting ≡ ws
    → Keeps t (held t m) (connect_expired p id ws m)
unfolding connect_expired
connect_expired-Keeps t p id [] m h = omega arith
connect_expired-Keeps t p id (c ∷ cs) m h = elim (Bool-cases (c.id == id)) [
  | inl e ↦ rw e (omega (arith, left-give_up_all t p timeout (c ∷ cs), ap (count t) h))
  | inr e ↦ rw e (omega arith)
]

expire-Keeps :
    (t : ℕ) (p : Bool) (id : ℕ) (cs : List Command)
    → count t (expire p id cs).0 + left t (expire p id cs).1 ≡ count t cs
unfolding expire
expire-Keeps t p id [] = refl
expire-Keeps t p id (c ∷ cs) = elim (Bool-cases (id_after p c == id)) [
  | inl e ↦ rw e (omega (arith, left-give_up t p timeout c []))
  | inr e ↦
      rw e (omega (arith, left-give_up t p timeout c (expire p id cs).1, expire-Keeps t p id cs))
]

pub packet_expired-Keeps :
    (t : ℕ) (p : Bool) (id : ℕ) (rs : List Command) (m : MemcacheClient)
    → m.running ≡ rs
    → Keeps t (held t m) (packet_expired p id rs m)
unfolding packet_expired
packet_expired-Keeps t p id [] m h = omega arith
packet_expired-Keeps t p id (c ∷ cs) m h = elim (Bool-cases (c.id == id)) [
  | inl e ↦ rw e (omega (arith, expire-Keeps t p id (c ∷ cs), ap (count t) h))
  | inr e ↦ rw e (omega arith)
]
