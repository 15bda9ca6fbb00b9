-- ===== src/MemcacheCommand/Tests.antt =====
-- Each theorem about apps/evmc/command.cc at keys of its own.
use evpp.Base.{ℕ, List, [], ◌∷◌}
use evpp.Base.Dictionary.{codes}

abbrev queries : List (List ℕ × ℕ)
queries = (codes "apple", 3) ∷ (codes "pear", 7) ∷ []
