-- ===== src/NsqCommand/Tests.antt =====
-- The theorem about apps/evnsq/command.cc at two messages.
use evpp.Base.{◌≡◌, refl, [], ◌∷◌, some, arith}
use evpp.Base.Dictionary.{codes}
use evpp.NsqCommand.{new, multi_publish, publish_message, write_to}
use evpp.NsqCommand.Wire.{read_pub, read_mpub, read-write_to}

read-write_to_example :
    (read_pub (write_to (publish_message (codes "news") (codes "one") new))
      ≡ some (codes "news", codes "one" ∷ []))
    × (read_mpub (write_to (multi_publish (codes "news") (codes "one" ∷ codes "" ∷ []) new))
        ≡ some (codes "news", codes "one" ∷ codes "" ∷ []))
read-write_to_example =
    read-write_to (codes "news") (codes "one") (codes "") [] refl refl (omega arith)
