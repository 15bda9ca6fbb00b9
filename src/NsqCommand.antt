-- ===== src/NsqCommand.antt =====
-- apps/evnsq/command.h and command.cc: a command of the nsq protocol and its bytes.
pub mod Wire
mod Tests
use evpp.Base.{
  ℕ, zero, suc, ◌+◌, ◌*◌, ◌/◌, ◌%◌, ◌^◌, Bool, true, false, List, [], ◌∷◌, ◌++◌, length,
  if◌then◌else◌,
}
use evpp.Base.Decimal.{to_string}
use evpp.Base.Dictionary.{codes}

pub record Command : Type 0 where
  pub publish : Bool
  pub retried_time : ℕ
  pub name : List ℕ
  pub params : List (List ℕ)
  pub body : List (List ℕ)

pub new : Command
new = record { publish = false; retried_time = 0; name = []; params = []; body = [] }

unfoldable pub inc_retried_time : Command → Command
inc_retried_time c = record c { retried_time = c.retried_time + 1 }

pub identify : List ℕ → Command → Command
identify js c = record c { name = codes "IDENTIFY"; body = c.body ++ js ∷ [] }

pub auth : List ℕ → Command → Command
auth secret c = record c { name = codes "AUTH"; body = c.body ++ secret ∷ [] }

abbrev pub with_channel : List ℕ → List (List ℕ) → List (List ℕ)
with_channel [] params = params
with_channel (c ∷ channel) params = params ++ (c ∷ channel) ∷ []

pub register : List ℕ → List ℕ → Command → Command
register topic channel c = record c {
  name = codes "REGISTER";
  params = with_channel channel (c.params ++ topic ∷ []);
}

pub unregister : List ℕ → List ℕ → Command → Command
unregister topic channel c = record c {
  name = codes "UNREGISTER";
  params = with_channel channel (c.params ++ topic ∷ []);
}

pub ping : Command → Command
ping c = record c { name = codes "PING" }

pub publish_message : List ℕ → List ℕ → Command → Command
publish_message topic message c = record c {
  publish = true;
  name = codes "PUB";
  params = c.params ++ topic ∷ [];
  body = c.body ++ message ∷ [];
}

pub multi_publish : List ℕ → List (List ℕ) → Command → Command
multi_publish topic messages c = record c {
  publish = true;
  name = codes "MPUB";
  params = c.params ++ topic ∷ [];
  body = messages;
}

pub subscribe : List ℕ → List ℕ → Command → Command
subscribe topic channel c = record c {
  name = codes "SUB";
  params = c.params ++ topic ∷ channel ∷ [];
}

pub ready : ℕ → Command → Command
ready count c = record c { name = codes "RDY"; params = c.params ++ to_string count ∷ [] }

pub finish : List ℕ → Command → Command
finish id c = record c { name = codes "FIN"; params = c.params ++ id ∷ [] }

pub requeue : List ℕ → ℕ → Command → Command
requeue id milliseconds c = record c {
  name = codes "REQ";
  params = c.params ++ id ∷ to_string milliseconds ∷ [];
}

pub touch : List ℕ → Command → Command
touch id c = record c { name = codes "TOUCH"; params = c.params ++ id ∷ [] }

pub start_close : Command → Command
start_close c = record c { name = codes "CLS" }

pub nop : Command → Command
nop c = record c { name = codes "NOP" }

pub reset : Command → Command
reset c = record c { publish = false; name = []; params = []; body = [] }

-- What `AppendInt32` appends.
abbrev pub int32 : ℕ → List ℕ
int32 n = (n / 2 ^ 24 % 256) ∷ (n / 2 ^ 16 % 256) ∷ (n / 2 ^ 8 % 256) ∷ (n % 256) ∷ []

abbrev pub params_text : List (List ℕ) → List ℕ
params_text [] = []
params_text (p ∷ ps) = b' ' ∷ (p ++ params_text ps)

abbrev pub sizes : List (List ℕ) → ℕ
sizes [] = 0
sizes (msg ∷ body) = 4 + length msg + sizes body

-- Each message behind its size
abbrev pub sized : List (List ℕ) → List ℕ
sized [] = []
sized (msg ∷ body) = int32 (length msg) ++ (msg ++ sized body)

pub body_text : List (List ℕ) → List ℕ
body_text [] = []
body_text (d ∷ []) = int32 (length d) ++ d
body_text (d ∷ e ∷ body) =
    int32 (4 + sizes (d ∷ e ∷ body)) ++ (int32 (length (d ∷ e ∷ body)) ++ sized (d ∷ e ∷ body))

-- `WriteTo`: the bytes that it appends
pub write_to : Command → List ℕ
write_to c = c.name ++ (params_text c.params ++ (b'\n' ∷ body_text c.body))
