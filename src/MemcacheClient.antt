-- ===== src/MemcacheClient.antt =====
-- apps/evmc/memcache_client.h, memcache_client.cc and OnClientConnection of memcache_client_base.cc: the
-- commands of one connection with a memcached server. A command that is launched again by the pool is
-- an effect; that it comes back to the same client within the call is left out.
pub mod Holding
pub mod Answering
pub mod Owing
pub mod Timeout
pub mod BinaryCodec
pub mod Header
pub mod Codec
pub mod Prefix
mod Tests
use evpp.Base.{
  ℕ, zero, suc, ◌+◌, ◌-◌, ◌*◌, ◌%◌, ◌^◌, Bool, true, false, List, [], ◌∷◌, ◌++◌, Option, none, some,
  ◌&&◌, ◌||◌, ◌==◌, ◌>>=◌, if◌then◌else◌, leb, ltb, length, take, drop,
}

-- A command that was made has a tag of its own; `server_ids` is its history, the newest first.
pub record Command : Type 0 where
  pub tag : ℕ
  pub id : ℕ
  pub server_ids : List ℕ

abbrev pub bad_server_id : ℕ
bad_server_id = 65535

-- `server_id`
pub server_id : Command → ℕ
server_id c = elim c.server_ids [ [] ↦ bad_server_id | s ∷ ss ↦ s ]

-- `ShouldRetry`
pub should_retry : Command → Bool
should_retry c = ltb (length c.server_ids) 2

pub data Error : Type 0 where
  timeout network : Error

-- How a command leaves a client: `OnError`, a launch by the pool, or one of the `On…Done`.
pub data Outcome : Type 0 where
  fails : Error → Outcome
  launches_again : Outcome
  set_done : ℕ → Outcome
  remove_done : ℕ → Outcome
  get_done : ℕ → List ℕ → Outcome
  multi_get_done : ℕ → List ℕ → List ℕ → Outcome
  prefix_get_done : ℕ → List ℕ → List (List ℕ × List ℕ) → Outcome

pub data Effect : Type 0 where
  leaves : Command → Outcome → Effect
  launches : Command → Effect
  -- `OnMultiGetCommandOneResponse`
  one_response : Command → ℕ → List ℕ → List ℕ → Effect
  prefix_response : Command → ℕ → List ℕ → List (List ℕ × List ℕ) → Effect
  starts_timer : ℕ → Effect
  starts_connect_timer : ℕ → Effect

pub record MemcacheClient : Type 0 where
  pub id_seq : ℕ
  pub running : List Command
  pub waiting : List Command
  pub timer_canceled : Bool
  pub con_timer_canceled : Bool

pub new : MemcacheClient
new = record {
  id_seq = 0;
  running = [];
  waiting = [];
  timer_canceled = true;
  con_timer_canceled = true;
}

pub next_id : MemcacheClient → ℕ
next_id m = (m.id_seq + 1) % 2 ^ 32

-- `set_id(next_id())`
abbrev pub numbered : Command → MemcacheClient → Command
numbered c m = record c { id = next_id m }

-- A command with its id, and the client that counts it
pub with_id : Command → MemcacheClient → Command × MemcacheClient
with_id c m = if c.id == 0 then (numbered c m, record m { id_seq = next_id m }) else (c, m)

-- The timer of the running commands is started where none runs.
pub arm : Bool → ℕ → MemcacheClient → MemcacheClient × List Effect
arm has_timeout id m =
    if has_timeout && m.timer_canceled
    then (record m { timer_canceled = false }, starts_timer id ∷ [])
    else (m, [])

pub arm_connect : Bool → ℕ → MemcacheClient → MemcacheClient × List Effect
arm_connect has_timeout id m =
    if has_timeout && m.con_timer_canceled
    then (record m { con_timer_canceled = false }, starts_connect_timer id ∷ [])
    else (m, [])

-- `PushRunningCommand` of a command; `has_timeout` is that the timeout is not zero.
pub push_running_command : Bool → Command → MemcacheClient → MemcacheClient × List Effect
push_running_command has_timeout c m =
    let (c', m') = with_id c m in
    arm has_timeout c'.id (record m' { running = m'.running ++ c' ∷ [] })

-- `PushWaitingCommand` of a command
pub push_waiting_command : Bool → Command → MemcacheClient → MemcacheClient × List Effect
push_waiting_command has_timeout c m =
    arm_connect has_timeout (next_id m)
      (record m { id_seq = next_id m; waiting = m.waiting ++ numbered c m ∷ [] })

-- `set_id(0)` and `set_server_id(server_id())`
pub again : Command → Command
again c = record c { id = 0; server_ids = server_id c ∷ c.server_ids }

-- A command that the connection or the time has failed
pub give_up : Bool → Error → Command → Effect
give_up has_pool e c =
    if has_pool && should_retry c then leaves (again c) launches_again else leaves c (fails e)

pub give_up_all : Bool → Error → List Command → List Effect
give_up_all has_pool e [] = []
give_up_all has_pool e (c ∷ cs) = give_up has_pool e c ∷ give_up_all has_pool e cs

-- `OnClientConnection` of a connection that is up
pub launch_all : Bool → List Command → MemcacheClient → MemcacheClient × List Effect
launch_all has_timeout [] m = (m, [])
launch_all has_timeout (c ∷ cs) m =
    let (m', es) = push_running_command has_timeout c m in
    let (m'', es') = launch_all has_timeout cs m' in (m'', es ++ (launches (with_id c m).0 ∷ es'))

-- `OnClientConnection`; its pool is never null.
pub on_client_connection : Bool → Bool → MemcacheClient → MemcacheClient × List Effect
on_client_connection has_timeout up m =
    if up then launch_all has_timeout m.waiting (record m { waiting = [] }) else (
      record m { running = []; waiting = [] },
      give_up_all true network m.running ++ give_up_all true network m.waiting,
    )

-- `OnConnectTimeout`, with the commands that wait
pub connect_expired : Bool → ℕ → List Command → MemcacheClient → MemcacheClient × List Effect
connect_expired has_pool id [] m = (record m { con_timer_canceled = true }, [])
connect_expired has_pool id (c ∷ cs) m =
    if c.id == id
    then (
      record m { waiting = []; con_timer_canceled = true },
      give_up_all has_pool timeout (c ∷ cs),
    )
    else (record m { con_timer_canceled = false }, starts_connect_timer c.id ∷ [])

pub on_connect_timeout : Bool → ℕ → MemcacheClient → MemcacheClient × List Effect
on_connect_timeout has_pool id m = connect_expired has_pool id m.waiting m

-- The id that a command has after `give_up`
abbrev pub id_after : Bool → Command → ℕ
id_after has_pool c = if has_pool && should_retry c then 0 else c.id

-- The loop of `OnPacketTimeout`: what still runs, and the effects
pub expire : Bool → ℕ → List Command → List Command × List Effect
expire has_pool id [] = ([], [])
expire has_pool id (c ∷ cs) =
    let rest = expire has_pool id cs in
    if id_after has_pool c == id
    then (cs, give_up has_pool timeout c ∷ [])
    else (rest.0, give_up has_pool timeout c ∷ rest.1)

-- `OnPacketTimeout`, with the commands that run
pub packet_expired : Bool → ℕ → List Command → MemcacheClient → MemcacheClient × List Effect
packet_expired has_pool id [] m = (record m { timer_canceled = true }, [])
packet_expired has_pool id (c ∷ cs) m =
    if c.id == id
    then (
      record m { running = (expire has_pool id (c ∷ cs)).0; timer_canceled = true },
      (expire has_pool id (c ∷ cs)).1,
    )
    else (record m { timer_canceled = false }, starts_timer c.id ∷ [])

pub on_packet_timeout : Bool → ℕ → MemcacheClient → MemcacheClient × List Effect
on_packet_timeout has_pool id m = packet_expired has_pool id m.running m
