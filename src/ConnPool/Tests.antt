-- ===== src/ConnPool/Tests.antt =====
-- Each theorem about evpp/httpc/conn_pool.cc at a pool of its own.
use evpp.Base.{◌≡◌, refl, [], ◌∷◌, some, arith}
use evpp.ConnPool.{ConnPool, find, get, put, clear, close_loops, close_each}
use evpp.ConnPool.Bound.{Bounded, put_lem}

-- Two idle connections on loop 1, none on loop 2.
abbrev small : ConnPool
small = record { max_pool_size = 3; pool = (1, 5 ∷ 6 ∷ []) ∷ (2, []) ∷ [] }

small-Bounded : Bounded 3 small.pool
small-Bounded = (omega arith, (omega arith, omega arith))

known : find 1 small.pool ≡ some (5 ∷ 6 ∷ [])
unfolding find
known = refl

cleared : (clear small).1 ≡ (1, 5) ∷ (1, 6) ∷ []
unfolding clear close_loops close_each
cleared = refl

put_lem_example :
    (p' : ConnPool) × (put 1 7 small ≡ some p')
    × Bounded p'.max_pool_size p'.pool
    × (get 1 9 p' ≡ (7, small))
put_lem_example = put_lem 1 7 9 (5 ∷ 6 ∷ []) small small-Bounded known
