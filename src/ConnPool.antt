-- ===== src/ConnPool.antt =====
-- evpp/httpc/conn_pool.cc: idle HTTP connections, for each loop a vector with its back at the end of
-- the list. Loops and connections are known by numbers; `none` is a use of the map's end.
pub mod Bound
mod Tests
use evpp.Base.{
  ℕ, ◌≡◌, Bool, true, false, List, [], ◌∷◌, ◌++◌, Option, none, some, ◌==◌, if◌then◌else◌, leb,
  length, value_or, is_none,
}

pub record ConnPool : Type 0 where
  pub max_pool_size : ℕ
  pub pool : List (ℕ × List ℕ)

pub new : ℕ → ConnPool
new size = record { max_pool_size = size; pool = [] }

-- `pool_.find`
pub find : ℕ → List (ℕ × List ℕ) → Option (List ℕ)
find l [] = none
find l ((k, v) ∷ m) = let rest = find l m in if k == l then some v else rest

-- `pool_[loop] = v`
pub assign : ℕ → List ℕ → List (ℕ × List ℕ) → List (ℕ × List ℕ)
assign l v [] = (l, v) ∷ []
assign l v ((k, w) ∷ m) = let rest = assign l v m in if k == l then (k, v) ∷ m else (k, w) ∷ rest

-- `back` and `pop_back`: the vector without its last element, and that element
pub pop_back : List ℕ → Option (List ℕ × ℕ)
pop_back [] = none
pop_back (c ∷ []) = some ([], c)
pop_back (c ∷ d ∷ v) =
    let rest = pop_back (d ∷ v) in elim rest [ none ↦ none | some (w, e) ↦ some (c ∷ w, e) ]

taken : ℕ → ℕ → ConnPool → Option (List ℕ × ℕ) → ℕ × ConnPool
taken l fresh p none = (fresh, p)
taken l fresh p (some (v, c)) = (c, record p { pool = assign l v p.pool })

with_loop : ℕ → ConnPool → ConnPool
with_loop l p = if is_none (find l p.pool) then record p { pool = assign l [] p.pool } else p

-- `Get`; `fresh` is the connection that it makes if none is idle.
pub get : ℕ → ℕ → ConnPool → ℕ × ConnPool
get l fresh p = taken l fresh (with_loop l p) (pop_back (value_or [] (find l (with_loop l p).pool)))

stored : ℕ → ℕ → ConnPool → Option (List ℕ) → Option ConnPool
stored l c p none = none
stored l c p (some v) = some (
    if leb p.max_pool_size (length v) then p else record p { pool = assign l (v ++ c ∷ []) p.pool })

-- `Put` of a connection on its loop
pub put : ℕ → ℕ → ConnPool → Option ConnPool
put l c p = stored l c p (find l p.pool)

-- `Clear`: each connection is closed by a task for its own loop.
close_each : ℕ → List ℕ → List (ℕ × ℕ)
close_each l [] = []
close_each l (c ∷ v) = (l, c) ∷ close_each l v

close_loops : List (ℕ × List ℕ) → List (ℕ × ℕ)
close_loops [] = []
close_loops ((l, v) ∷ m) = close_each l v ++ close_loops m

pub clear : ConnPool → ConnPool × List (ℕ × ℕ)
clear p = (record p { pool = [] }, close_loops p.pool)
