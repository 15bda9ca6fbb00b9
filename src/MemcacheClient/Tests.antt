-- ===== src/MemcacheClient/Tests.antt =====
-- Each theorem about apps/evmc/memcache_client.cc and binary_codec.cc at a client of its own.
use evpp.Base.{ℕ, ◌≡◌, refl, true, false, List, [], ◌∷◌, some, arith}
use evpp.Base.Dictionary.{codes}
use evpp.MemcacheClient.{
  Command, MemcacheClient, timeout, give_up_all, on_packet_timeout, should_retry,
}
use evpp.MemcacheClient.BinaryCodec.{Protocol, on_codec_message}
use evpp.MemcacheClient.Owing.{
  Event, pushes_running, pushes_waiting, connects, disconnects, times_out, responds,
}
use evpp.MemcacheClient.Timeout.{on_packet_timeout-all}
use evpp.MemcacheClient.Codec.{Reply, stored, found, Differ, wire, effects, on_codec_message-wire}

abbrev protocol : Protocol
protocol = record { set = 1; delete = 4; get = 0; getk = 12; getkq = 13; pgetk = 27; pgetkq = 28 }

protocol-Differ : Differ protocol
protocol-Differ = record {
  delete_set = refl;
  get_set = refl;
  get_delete = refl;
  opcodes = (omega arith, omega arith, omega arith);
}

abbrev command : ℕ → ℕ → Command
command tag id = record { tag = tag; id = id; server_ids = 2 ∷ [] }

abbrev client : MemcacheClient
client = record {
  id_seq = 3;
  running = command 10 1 ∷ command 11 2 ∷ command 12 3 ∷ [];
  waiting = [];
  timer_canceled = false;
  con_timer_canceled = true;
}

abbrev events : List Event
events =
    pushes_running (command 13 0)
    ∷ responds (record { opcode = 1; opaque = 1; status = 0; keylen = 0; extlen = 0; bodylen = 0 })
        []
    ∷ times_out 2
    ∷ pushes_waiting (command 14 0)
    ∷ connects
    ∷ disconnects
    ∷ []

on_packet_timeout-all_example : on_packet_timeout true 1 client ≡ (
  record client { running = []; timer_canceled = true },
  give_up_all true timeout (command 10 1 ∷ command 11 2 ∷ command 12 3 ∷ []),
)
unfolding should_retry
on_packet_timeout-all_example =
    on_packet_timeout-all (command 10 1) (command 11 2 ∷ command 12 3 ∷ []) client refl refl
      (omega arith) (refl, (refl, tt))

abbrev replies : List (Command × Reply)
replies = (command 10 1, stored 0 [] []) ∷ (command 11 2, found 0 (0 ∷ 0 ∷ []) (codes "value")) ∷ []

on_codec_message-wire_example :
    on_codec_message protocol 5 (wire protocol replies (1 ∷ 3 ∷ [])) client
    ≡ some (1 ∷ 3 ∷ [], record client { running = command 12 3 ∷ [] }, effects replies)
on_codec_message-wire_example =
    on_codec_message-wire protocol protocol-Differ replies (command 12 3 ∷ []) (1 ∷ 3 ∷ []) 5 client
      refl
      (
        (omega arith, omega arith, omega arith, omega arith),
        ((omega arith, omega arith, omega arith, omega arith), tt),
      )
      (omega arith) (omega arith)
