-- ===== src/NsqCommand/Wire.antt =====
-- apps/evnsq/command.cc: the bytes of a command against a reader of the nsq protocol.
use mathlib.Core.Bool.{true≢false}
use evpp.Base.{
  ℕ, zero, suc, ◌+◌, ◌*◌, ◌^◌, ◌≤◌, ◌<◌, ◌≡◌, refl, ap, ◌∙◌, Bool, true, false, ◌||◌, List, [], ◌∷◌,
  ◌++◌, ◌>>=◌, Option, none, some, ◌==◌, ==_refl, if◌then◌else◌, leb, le→leb, length, length-append,
  take, drop, take-length_append, drop-length_append, arith,
}
use evpp.Base.Decimal.{has}
use evpp.Base.Dictionary.{codes}
use evpp.NsqCommand.{new, multi_publish, publish_message, int32, sizes, sized, body_text, write_to}

pub read_int : List ℕ → Option (ℕ × List ℕ)
read_int (a ∷ b ∷ c ∷ d ∷ s) = some (((a * 256 + b) * 256 + c) * 256 + d, s)
read_int _ = none

-- As many messages as a number says, and nothing behind them.
abbrev pub end_of : List ℕ → Option (List (List ℕ))
end_of [] = some []
end_of (x ∷ s) = none

abbrev pub with_message : List ℕ → Option (List (List ℕ)) → Option (List (List ℕ))
with_message msg none = none
with_message msg (some msgs) = some (msg ∷ msgs)

abbrev pub cut : (List ℕ → Option (List (List ℕ))) → Option (ℕ × List ℕ) → Option (List (List ℕ))
cut more none = none
cut more (some (n, s)) =
    if leb n (length s) then with_message (take n s) (more (drop n s)) else none

pub read_messages : ℕ → List ℕ → Option (List (List ℕ))
read_messages zero s = end_of s
read_messages (suc count) s = cut (read_messages count) (read_int s)

-- The text behind a given start
pub strip : List ℕ → List ℕ → Option (List ℕ)
strip [] s = some s
strip (p ∷ ps) [] = none
strip (p ∷ ps) (c ∷ s) = let rest = strip ps s in if p == c then rest else none

abbrev pub longer : ℕ → Option (List ℕ × List ℕ) → Option (List ℕ × List ℕ)
longer c none = none
longer c (some (w, s)) = some (c ∷ w, s)

-- A word up to the end of the line, and the text behind the line
pub last_word : List ℕ → Option (List ℕ × List ℕ)
last_word [] = none
last_word (c ∷ s) =
    let rest = longer c (last_word s) in
    if c == b'\n' then some ([], s) else if c == b' ' then none else rest

abbrev pub if_whole :
    (List ℕ → Option (List (List ℕ))) → Option (ℕ × List ℕ) → Option (List (List ℕ))
if_whole more none = none
if_whole more (some (n, s)) = if n == length s then more s else none

abbrev pub counted : Option (ℕ × List ℕ) → Option (List (List ℕ))
counted none = none
counted (some (n, s)) = read_messages n s

abbrev pub with_topic :
    (List ℕ → Option (List (List ℕ))) → Option (List ℕ × List ℕ) → Option (List ℕ × List (List ℕ))
with_topic more none = none
with_topic more (some (topic, s)) = more s >>= λ msgs. some (topic, msgs)

abbrev pub of_mpub : List ℕ → Option (List (List ℕ))
of_mpub s = if_whole (λ t. counted (read_int t)) (read_int s)

abbrev pub of_pub : List ℕ → Option (List (List ℕ))
of_pub s = if_whole (λ t. some (t ∷ [])) (read_int s)

-- The topic and the messages of an MPUB, and of a PUB
pub read_mpub : List ℕ → Option (List ℕ × List (List ℕ))
read_mpub s = strip (codes "MPUB ") s >>= λ t. with_topic of_mpub (last_word t)

pub read_pub : List ℕ → Option (List ℕ × List (List ℕ))
read_pub s = strip (codes "PUB ") s >>= λ t. with_topic of_pub (last_word t)

read_int-int32 : (n : ℕ) (s : List ℕ) → n < 2 ^ 32 → read_int (int32 n ++ s) ≡ some (n, s)
unfolding read_int
read_int-int32 n s h = ap (λ k. some (k, s)) (omega arith)

length-sized : (msgs : List (List ℕ)) → length (sized msgs) ≡ sizes msgs
length-sized [] = refl
length-sized (m ∷ msgs) = omega (arith, length-append m (sized msgs), length-sized msgs)

read_messages-sized :
    (msgs : List (List ℕ))
    → sizes msgs < 2 ^ 32
    → read_messages (length msgs) (sized msgs) ≡ some msgs
unfolding read_messages
read_messages-sized [] h = refl
read_messages-sized (m ∷ msgs) h =
    rw (read_int-int32 (length m) (m ++ sized msgs) (omega arith)) rw
      (le→leb (length m) (length (m ++ sized msgs)) (omega (arith, length-append m (sized msgs))))
      rw (take-length_append m (sized msgs)) rw (drop-length_append m (sized msgs)) rw
      (read_messages-sized msgs (omega arith)) refl

neither : (a b : Bool) → (a || b) ≡ false → (a ≡ false) × (b ≡ false)
neither false b h = (refl, h)
neither true b h = absurd (true≢false h)

last_word-line :
    (s t : List ℕ)
    → has b'\n' s ≡ false
    → has b' ' s ≡ false
    → last_word ((s ++ []) ++ b'\n' ∷ t) ≡ some (s, t)
unfolding last_word
last_word-line [] t h k = refl
last_word-line (x ∷ s) t h k =
    let (e, rest) = neither (x == b'\n') (has b'\n' s) h in
    let (f, rest') = neither (x == b' ') (has b' ' s) k in
    rw e rw f (ap (longer x) (last_word-line s t rest rest'))

length-sizes : (msgs : List (List ℕ)) → length msgs ≤ sizes msgs
length-sizes [] = omega arith
length-sizes (m ∷ msgs) = omega (arith, length-sizes msgs)

size_test : (a b : ℕ) → b ≡ a → (a == b) ≡ true
size_test a b h = ap (λ k. a == k) h ∙ ==_refl a

whole-sized :
    (msgs : List (List ℕ))
    → 4 + sizes msgs < 2 ^ 32
    → if_whole
        (λ t. counted (read_int t))
        (some (4 + sizes msgs, int32 (length msgs) ++ sized msgs))
      ≡ some msgs
whole-sized msgs h =
    rw
      (size_test (4 + sizes msgs) (length (int32 (length msgs) ++ sized msgs))
        (omega (arith, length-sized msgs)))
      (ap counted (read_int-int32 (length msgs) (sized msgs) (omega (arith, length-sizes msgs)))
        ∙ read_messages-sized msgs (omega arith))

-- A reader of the protocol, which checks the name of the command and every size, gets back the topic
-- and the message of a PUB, and the topic and the messages of an MPUB, that the client writes, if the
-- topic has no line end and no space and the sizes fit 32 bits.
pub read-write_to :
    (topic d e : List ℕ) (msgs : List (List ℕ))
    → has b'\n' topic ≡ false
    → has b' ' topic ≡ false
    → 4 + sizes (d ∷ e ∷ msgs) < 2 ^ 32
    → (read_pub (write_to (publish_message topic d new)) ≡ some (topic, d ∷ []))
      × (read_mpub (write_to (multi_publish topic (d ∷ e ∷ msgs) new)) ≡ some (topic, d ∷ e ∷ msgs))
unfolding read_pub read_mpub multi_publish publish_message new body_text write_to strip
read-write_to topic d e msgs t w small = (
  ap (with_topic of_pub) (last_word-line topic (int32 (length d) ++ d) t w)
      ∙ ap (λ r. if_whole (λ t. some (t ∷ [])) r >>= λ m. some (topic, m))
          (read_int-int32 (length d) d (omega arith))
      ∙ rw (==_refl (length d)) refl,
  ap (with_topic of_mpub) (last_word-line topic (body_text (d ∷ e ∷ msgs)) t w)
      ∙ ap (λ r. if_whole (λ t. counted (read_int t)) r >>= λ m. some (topic, m))
          (read_int-int32 (4 + sizes (d ∷ e ∷ msgs))
            (int32 (length (d ∷ e ∷ msgs)) ++ sized (d ∷ e ∷ msgs)) (omega arith))
      ∙ ap (λ r. r >>= λ m. some (topic, m)) (whole-sized (d ∷ e ∷ msgs) small),
)
