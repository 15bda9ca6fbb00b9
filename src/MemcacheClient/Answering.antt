-- ===== src/MemcacheClient/Answering.antt =====
-- apps/evmc/binary_codec.cc, OnResponsePacket: which command a response answers.
use evpp.Base.{
  ℕ, ◌≡◌, refl, Bool, true, false, List, [], ◌∷◌, Option, none, some, ◌==◌, if◌then◌else◌, inl, inr,
  Bool-cases, All, arith, length, drop, subst, ◌+◌,
}
use evpp.MemcacheClient.{
  Command, Outcome, Effect, leaves, launches, one_response, prefix_response, starts_timer,
  starts_connect_timer, MemcacheClient,
}
use evpp.MemcacheClient.BinaryCodec.{
  answered, header_len, Protocol, ResponseHeader, on_opcode, on_response_packet, pop_with, tell_one,
  tell_prefix,
}

-- The effect tells the command in front of `rs`, whose id is `opaque`.
abbrev pub Tells : ℕ → List Command → Command → Type 0
Tells opaque [] c = ⊥
Tells opaque (d ∷ rs) c = (c ≡ d) × (c.id ≡ opaque)

abbrev pub IsAnswer : ℕ → List Command → Effect → Type 0
IsAnswer opaque rs (leaves c o) = Tells opaque rs c
IsAnswer opaque rs (one_response c status key value) = Tells opaque rs c
IsAnswer opaque rs (prefix_response c status key entries) = Tells opaque rs c
IsAnswer opaque rs (launches c) = ⊥
IsAnswer opaque rs (starts_timer id) = ⊥
IsAnswer opaque rs (starts_connect_timer id) = ⊥

-- A response has no other effect; `none` is a read behind the buffer.
abbrev pub Answers : ℕ → List Command → Option (MemcacheClient × List Effect) → Type 0
Answers opaque rs none = Unit
Answers opaque rs (some (m, fs)) = All (IsAnswer opaque rs) fs

if-Answers :
    (opaque : ℕ) (rs : List Command) (b : Bool) (x y : Option (MemcacheClient × List Effect))
    → Answers opaque rs x
    → Answers opaque rs y
    → Answers opaque rs (if b then x else y)
if-Answers opaque rs true x y h k = h
if-Answers opaque rs false x y h k = k

pop_with-Answers :
    (c : Command) (cs : List Command) (m : MemcacheClient) (o : Option Outcome)
    → Answers c.id (c ∷ cs) (pop_with c cs m o)
unfolding pop_with
pop_with-Answers c cs m none = tt
pop_with-Answers c cs m (some o) = ((refl, refl), tt)

tell_one-Answers :
    (status : ℕ) (c : Command) (cs : List Command) (m : MemcacheClient)
    (o : Option (List ℕ × List ℕ))
    → Answers c.id (c ∷ cs) (tell_one c status m o)
unfolding tell_one
tell_one-Answers status c cs m none = tt
tell_one-Answers status c cs m (some (k, v)) = ((refl, refl), tt)

tell_prefix-Answers :
    (status : ℕ) (c : Command) (cs : List Command) (m : MemcacheClient)
    (o : Option (List ℕ × List (List ℕ × List ℕ)))
    → Answers c.id (c ∷ cs) (tell_prefix c status m o)
unfolding tell_prefix
tell_prefix-Answers status c cs m none = tt
tell_prefix-Answers status c cs m (some (k, es)) = ((refl, refl), tt)

on_opcode-Answers :
    (p : Protocol) (resp : ResponseHeader) (size : ℕ) (pv : List ℕ) (c : Command)
    (cs : List Command) (m : MemcacheClient)
    → Answers c.id (c ∷ cs) (on_opcode p resp size pv c cs m)
unfolding on_opcode
on_opcode-Answers p resp size pv c cs m =
    let pops : (o : Option Outcome) → Answers c.id (c ∷ cs) (pop_with c cs m o) =
      λ o. pop_with-Answers c cs m o in
    let if_ = if-Answers c.id (c ∷ cs) in
    if_ (resp.opcode == p.set) _ _ (pops _) (
      if_ (resp.opcode == p.delete) _ _ (pops _) (
        if_ (resp.opcode == p.get) _ _ (pops _) (
          if_ (resp.opcode == p.getk) _ _ (pops _) (
            if_ (resp.opcode == p.getkq) _ _ (tell_one-Answers resp.status c cs m _) (
              if_ (resp.opcode == p.pgetk) _ _ (pops _) (
                if_ (resp.opcode == p.pgetkq) _ _ (tell_prefix-Answers resp.status c cs m _)
                  tt))))))

same_id : (a b : ℕ) → (a == b) ≡ true → b ≡ a
same_id a b h = ground arith

answered-Answers :
    (p : Protocol) (resp : ResponseHeader) (buf : List ℕ) (rs : List Command) (m : MemcacheClient)
    → Answers resp.opaque rs (answered p resp buf rs m)
unfolding answered
answered-Answers p resp buf [] m = tt
answered-Answers p resp buf (c ∷ cs) m = elim (Bool-cases (resp.opaque == c.id)) [
  | inl e ↦ rw e (
      subst
        (λ id.
          Answers id (c ∷ cs)
            (on_opcode p resp (length buf) (drop (header_len + resp.extlen) buf) c cs m))
        (same_id resp.opaque c.id e)
        (on_opcode-Answers p resp (length buf) (drop (header_len + resp.extlen) buf) c cs m))
  | inr e ↦ rw e tt
]

pub response-Answers :
    (p : Protocol) (resp : ResponseHeader) (buf : List ℕ) (m : MemcacheClient)
    → Answers resp.opaque m.running (on_response_packet p resp buf m)
unfolding on_response_packet
response-Answers p resp buf m = answered-Answers p resp buf m.running m
