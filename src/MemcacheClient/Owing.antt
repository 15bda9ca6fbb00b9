-- ===== src/MemcacheClient/Owing.antt =====
-- apps/evmc/memcache_client.cc and binary_codec.cc: what becomes of the commands.
use evpp.Base.{ℕ, ◌+◌, Bool, true, false, List, [], ◌∷◌, ◌++◌, Option, none, some}
use evpp.MemcacheClient.{
  Command, Effect, MemcacheClient, push_running_command, push_waiting_command, on_client_connection,
  on_connect_timeout, on_packet_timeout,
}
use evpp.MemcacheClient.BinaryCodec.{Protocol, ResponseHeader, on_response_packet}
use evpp.MemcacheClient.Answering.{Answers}
use evpp.MemcacheClient.Holding.{hits, Keeps}

-- `none` is a read behind the buffer.
pub KeepsIf : ℕ → ℕ → Option (MemcacheClient × List Effect) → Type 0
KeepsIf t n none = Unit
KeepsIf t n (some r) = Keeps t n r

-- What happens to a client
pub data Event : Type 0 where
  pushes_running pushes_waiting : Command → Event
  connects disconnects : Event
  times_out connect_times_out : ℕ → Event
  responds : ResponseHeader → List ℕ → Event

abbrev pub step :
    Protocol → Bool → Bool → Event → MemcacheClient → Option (MemcacheClient × List Effect)
step p has_timeout has_pool (pushes_running c) m = some (push_running_command has_timeout c m)
step p has_timeout has_pool (pushes_waiting c) m = some (push_waiting_command has_timeout c m)
step p has_timeout has_pool connects m = some (on_client_connection has_timeout true m)
step p has_timeout has_pool disconnects m = some (on_client_connection has_timeout false m)
step p has_timeout has_pool (times_out id) m = some (on_packet_timeout has_pool id m)
step p has_timeout has_pool (connect_times_out id) m = some (on_connect_timeout has_pool id m)
step p has_timeout has_pool (responds resp buf) m = on_response_packet p resp buf m

abbrev pub pushed : ℕ → Event → ℕ
pushed t (pushes_running c) = hits t c.tag
pushed t (pushes_waiting c) = hits t c.tag
pushed t connects = 0
pushed t disconnects = 0
pushed t (times_out id) = 0
pushed t (connect_times_out id) = 0
pushed t (responds resp buf) = 0

abbrev pub pushed_all : ℕ → List Event → ℕ
pushed_all t [] = 0
pushed_all t (e ∷ es) = pushed t e + pushed_all t es

abbrev pub behind :
    List Effect → Option (MemcacheClient × List Effect) → Option (MemcacheClient × List Effect)
behind es none = none
behind es (some (m, fs)) = some (m, es ++ fs)

-- The client after the events and all the effects, or `none` once a response is read behind the
-- buffer.
pub run :
    Protocol → Bool → Bool → List Event → MemcacheClient → Option (MemcacheClient × List Effect)
run p has_timeout has_pool [] m = some (m, [])
run p has_timeout has_pool (e ∷ es) m = elim (step p has_timeout has_pool e m) [
  | none ↦ none
  | some (m', fs) ↦ behind fs (run p has_timeout has_pool es m')
]

-- A response has no effect but on the command in front, whose id it has.
abbrev pub Answered : Event → MemcacheClient → Option (MemcacheClient × List Effect) → Type 0
Answered (responds resp buf) m r = Answers resp.opaque m.running r
Answered _ m r = Unit

abbrev pub Then : (MemcacheClient → Type 0) → Option (MemcacheClient × List Effect) → Type 0
Then P none = Unit
Then P (some (m, fs)) = P m

-- So it is for each response of a run.
abbrev pub AnsweredAll : Protocol → Bool → Bool → List Event → MemcacheClient → Type 0
AnsweredAll p b q [] m = Unit
AnsweredAll p b q (e ∷ es) m =
    Answered e m (step p b q e m) × Then (AnsweredAll p b q es) (step p b q e m)
