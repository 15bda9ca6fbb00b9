-- ===== src/NsqConn/Receiving.antt =====
-- apps/evnsq/nsq_conn.cc and message.h: what a connection receives. The options, the parsed answers of
-- nsqd and the callbacks are arguments; a buffer is the list of its unread bytes, and `none` or
-- `outside` is a read outside it or outside a JSON document.
use evpp.Base.{
  ℕ, zero, suc, ◌+◌, ◌-◌, ◌*◌, ◌^◌, Bool, true, false, List, [], ◌∷◌, ◌++◌, Option, none, some,
  ◌==◌, ◌>>=◌, if◌then◌else◌, leb, ltb, length, take, drop, add_size, sub_size,
}
use evpp.Base.Dictionary.{codes, is_same}
use evpp.NsqCommand
use evpp.NsqConn.{
  Status, NsqConn, Message, Effect, close, reconnect, write_command, on_publish_response,
  disconnected, connecting, identifying, authenticating, connected, subscribing, ready,
  disconnecting, sends, tells_message,
}

-- `Finish` and `Requeue`
pub answer_message : Bool → Message → Effect
answer_message done msg =
    if done
    then write_command (NsqCommand.finish msg.id NsqCommand.new)
    else write_command (NsqCommand.requeue msg.id 0 NsqCommand.new)

-- `Message::Decode`; a length below 26 wraps around, and `Retrieve` then empties the buffer.
unfoldable pub decode : ℕ → List ℕ → Option (Message × List ℕ)
decode message_len buf =
    if ltb (length buf) 26
    then none
    else some (
      record { id = take 16 (drop 10 buf); body = take (sub_size message_len 26) (drop 26 buf) },
      drop (sub_size message_len 26) (drop 26 buf),
    )

abbrev pub starts_with : List ℕ → List ℕ → Bool
starts_with s t = is_same (take (length s) t) s

pub record Nsqd : Type 0 where
  pub feature_negotiation : Bool
  pub options : List ℕ
  pub auth_secret : List ℕ
  pub is_producer : Bool
  pub high_water_mark : ℕ
  -- "auth_required" of the answer; `none` is a document that does not parse.
  pub auth_required : List ℕ → Option Bool
  pub is_json : List ℕ → Bool
  -- What the callback returns, 0 or not, if there is one.
  pub consumed : Option (Message → Bool)
  -- What the connection callback does.
  pub told : NsqConn → NsqConn × List Effect

-- How the loop of `OnRecv` ends: with what is left of the buffer, the connection and the effects, or
-- with a read outside the buffer; it is unfinished after as many rounds as the fuel.
pub data Received : Type 0 where
  ended : List ℕ → NsqConn → List Effect → Received
  outside unfinished : Received

abbrev pub after : List Effect → Received → Received
after es (ended rest n es') = ended rest n (es ++ es')
after es outside = outside
after es unfinished = unfinished

abbrev pub and_then :
    (List ℕ → NsqConn → Received) → Option (List ℕ × NsqConn × List Effect) → Received
and_then more none = outside
and_then more (some (rest, n, es)) = after es (more rest n)

abbrev pub with_int : Option ℕ → (ℕ → Received) → Received
with_int none f = outside
with_int (some k) f = f k

module _ (o : Nsqd) where
  -- `Identify`
  pub identify : NsqConn → NsqConn × List Effect
  identify n = (
    record n { status = identifying },
    sends (codes "  V2") ∷ write_command (NsqCommand.identify o.options NsqCommand.new) ∷ [],
  )

  -- `Authenticate`
  pub authenticate : NsqConn → NsqConn × List Effect
  authenticate n = (
    record n { status = authenticating },
    write_command (NsqCommand.auth o.auth_secret NsqCommand.new) ∷ [],
  )

  -- `OnConnectedOK`
  pub on_connected_ok : NsqConn → NsqConn × List Effect
  on_connected_ok n = o.told (record n { status = connected })

  -- `OnTCPConnectionEvent`
  pub on_tcp_connection_event : Bool → Bool → NsqConn → NsqConn × List Effect
  on_tcp_connection_event up auto_reconnect n =
      if up
      then elim n.status [
        | disconnected ↦ (n, [])
        | connecting ↦ identify n
        | identifying ↦ (n, [])
        | authenticating ↦ (n, [])
        | connected ↦ (n, [])
        | subscribing ↦ (n, [])
        | ready ↦ (n, [])
        | disconnecting ↦ (n, [])
      ]
      else o.told (record n { status = if auto_reconnect then connecting else disconnected })

  -- The answer to `Identify`
  pub on_identified : List ℕ → NsqConn → Option (NsqConn × List Effect)
  on_identified msg n =
      if o.feature_negotiation
      then (o.auth_required msg >>= λ required.
          some (if required then authenticate n else on_connected_ok n))
      else some (if is_same msg (codes "OK") then on_connected_ok n else close n)

  pub on_authenticated : List ℕ → NsqConn → NsqConn × List Effect
  on_authenticated msg n =
      if starts_with (codes "E_") msg
      then close n
      else if o.is_json msg
      then on_connected_ok n
      else close n

  pub on_subscribed : List ℕ → NsqConn → NsqConn × List Effect
  on_subscribed msg n =
      if is_same msg (codes "OK")
      then (let (n', es) = o.told (record n { status = ready }) in
          (n', es ++ write_command (NsqCommand.ready 100 NsqCommand.new) ∷ []))
      else reconnect n

  unfoldable pub consume : Option (Message → Bool) → Message × List ℕ → List ℕ × List Effect
  consume none (msg, rest) = (rest, [])
  consume (some f) (msg, rest) = (rest, tells_message msg ∷ answer_message (f msg) msg ∷ [])

  pub on_response : List ℕ → NsqConn → NsqConn × List Effect
  on_response d n =
      if is_same d (codes "_heartbeat_")
      then (n, write_command (NsqCommand.nop NsqCommand.new) ∷ [])
      else if o.is_producer
      then on_publish_response o.high_water_mark d n
      else (n, [])

  abbrev pub is_disconnecting : Status → Bool
  is_disconnecting disconnecting = true
  is_disconnecting _ = false

  pub on_error : List ℕ → NsqConn → NsqConn × List Effect
  on_error msg n =
      if starts_with (codes "E_UNAUTHORIZED AUTH") msg
      then close n
      else if is_disconnecting n.status
      then (n, [])
      else reconnect n

  abbrev pub left : List ℕ → NsqConn × List Effect → List ℕ × NsqConn × List Effect
  left rest (n, es) = (rest, n, es)

  -- `OnMessage`: what is left of the buffer, the connection and the effects. A frame that is longer
  -- than the buffer, after a size that wraps, is read outside it.
  unfoldable pub on_message : ℕ → ℕ → List ℕ → NsqConn → Option (List ℕ × NsqConn × List Effect)
  on_message message_len frame_type buf n =
      if leb 3 frame_type
      then some (buf, n, [])
      else if ltb (length buf) message_len
      then none
      else if frame_type == 0
      then some (left (drop message_len buf) (on_response (take message_len buf) n))
      else if frame_type == 1
      then some (left buf (on_error (take message_len buf) n))
      else (decode message_len buf >>= λ m.
          let (rest, es) = consume o.consumed m in some (rest, n, es))

  -- One frame of `OnRecv`, behind its size and its type
  unfoldable pub on_frame : ℕ → ℕ → List ℕ → NsqConn → Option (List ℕ × NsqConn × List Effect)
  on_frame body_len frame_type buf n =
      let msg = take body_len buf in
      let rest = drop body_len buf in
      elim n.status [
        | disconnected ↦ some (buf, n, [])
        | connecting ↦ some (buf, n, [])
        | identifying ↦ (on_identified msg n >>= λ (n', es). some (rest, n', es))
        | authenticating ↦ some (left rest (on_authenticated msg n))
        | connected ↦ some (buf, n, [])
        | subscribing ↦ some (left rest (on_subscribed msg n))
        | ready ↦ on_message body_len frame_type buf n
        | disconnecting ↦ some (buf, n, [])
      ]

  -- `PeekInt32`: the value as a number of 32 bits
  abbrev pub peek_int : List ℕ → Option ℕ
  peek_int (a ∷ b ∷ c ∷ d ∷ s) = some (((a * 256 + b) * 256 + c) * 256 + d)
  peek_int _ = none

  -- An `int32_t` as a `size_t`
  abbrev pub to_size : ℕ → ℕ
  to_size n = if ltb n (2 ^ 31) then n else n + (2 ^ 64 - 2 ^ 32)

  -- `OnRecv`
  unfoldable pub on_recv : ℕ → List ℕ → NsqConn → Received
  on_recv zero buf n = if ltb 4 (length buf) then unfinished else ended buf n []
  on_recv (suc fuel) buf n =
      if ltb 4 (length buf)
      then with_int (peek_int buf) (λ size.
        if ltb (length buf) (add_size (to_size size) 4)
        then ended buf n []
        else with_int (peek_int (drop 4 buf)) (λ frame_type.
          and_then (on_recv fuel) (on_frame (sub_size (to_size size) 4) frame_type (drop 8 buf) n)))
      else ended buf n []
