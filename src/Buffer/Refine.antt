-- ===== src/Buffer/Refine.antt =====
-- A buffer of evpp/buffer.h behaves as the queue of its unread bytes.
use evpp.Base.{
  ℕ, ◌+◌, ◌*◌, ◌≤◌, ◌<◌, ◌^◌, ◌≡◌, refl, ap, ◌∙◌, List, [], ◌∷◌, ◌++◌, Option, some, ◌>>=◌, arith,
  length, take, drop,
}
use evpp.Buffer.{Buffer, write, next, next_all, reset, skip, truncate}
use evpp.Buffer.Bounds.{IsValid, skip-IsValid, truncate-IsValid}
use evpp.Buffer.Room.{contents}
use evpp.Buffer.Contents.{write_bounded}
use evpp.Buffer.Taking.{next_lem, contents-skip, contents-truncate}

-- What a user asks of a buffer.
pub data Op : Type 0 where
  puts : List ℕ → Op
  takes skips cuts : ℕ → Op

-- The calls in order on a buffer, with the bytes that each returns.
pub apply : Buffer → Op → Option (List ℕ × Buffer)
apply b (puts d) = write b d >>= λ b'. some ([], b')
apply b (takes n) = next b n
apply b (skips n) = some ([], skip b n)
apply b (cuts n) = some ([], truncate b n)

pub run : Buffer → List Op → Option (List (List ℕ) × Buffer)
run b [] = some ([], b)
run b (o ∷ os) = do (out, b') ← apply b o; (outs, b'') ← run b' os; some (out ∷ outs, b'')

-- The same calls on a list of bytes.
unfoldable pub queue_apply : List ℕ → Op → List ℕ × List ℕ
queue_apply q (puts d) = ([], q ++ d)
queue_apply q (takes n) = (take n q, drop n q)
queue_apply q (skips n) = ([], drop n q)
queue_apply q (cuts n) = ([], take n q)

unfoldable pub queue_run : List ℕ → List Op → List (List ℕ) × List ℕ
unfolding queue_apply
queue_run q [] = ([], q)
queue_run q (o ∷ os) =
    let (out, q') = queue_apply q o in let (outs, q'') = queue_run q' os in (out ∷ outs, q'')

-- The largest capacity after a call, from the one before it.
abbrev pub cost : ℕ → Op → ℕ
cost c (puts d) = c * 2 + length d
cost c _ = c

-- With a capacity of at most `c` no call overflows a size_t.
abbrev pub Allowed : ℕ → Op → Type 0
Allowed c (puts d) = c * 2 + length d < 2 ^ 64
Allowed c (takes n) = Unit {0}
Allowed c (skips n) = Unit {0}
Allowed c (cuts n) = c + n < 2 ^ 64

abbrev pub Affords : ℕ → List Op → Type 0
Affords c [] = Unit {0}
Affords c (o ∷ os) = Allowed c o × Affords (cost c o) os

capacity-next :
    (b : Buffer) (n : ℕ) (xs : List ℕ) (b' : Buffer)
    → next b n ≡ some (xs, b')
    → b'.capacity ≡ b.capacity
unfolding next next_all reset truncate
capacity-next b n xs b' h = ground arith

capacity-skip : (b : Buffer) (n : ℕ) → (skip b n).capacity ≡ b.capacity
unfolding skip reset truncate
capacity-skip b n = ground arith

capacity-truncate : (b : Buffer) (n : ℕ) → (truncate b n).capacity ≡ b.capacity
unfolding truncate
capacity-truncate b n = ground arith

apply_refines :
    {b : Buffer} (c : ℕ) (o : Op)
    → IsValid b
    → b.capacity ≤ c
    → Allowed c o
    → (b' : Buffer) × (apply b o ≡ some ((queue_apply (contents b) o).0, b'))
      × IsValid b'
      × (contents b' ≡ (queue_apply (contents b) o).1)
      × (b'.capacity ≤ cost c o)
unfolding apply queue_apply
apply_refines {b} c (puts d) v le a =
    let (b', e, v', k, m) = write_bounded d v (omega arith) in (b', rw e refl, v', k, omega arith)
apply_refines {b} c (takes n) v le a =
    let (b', e, v', k) = next_lem n v in
    (b', e, v', k, omega (arith, capacity-next b n (take n (contents b)) b' e))
apply_refines {b} c (skips n) v le a =
    (skip b n, refl, skip-IsValid n v, contents-skip n v, omega (arith, capacity-skip b n))
apply_refines {b} c (cuts n) v le a = (
  truncate b n,
  refl,
  truncate-IsValid n v (omega arith),
  contents-truncate n v (omega arith),
  omega (arith, capacity-truncate b n),
)

-- No sequence of calls that overflows no size_t tells a valid buffer from the queue of its unread
-- bytes: each call succeeds, returns what the queue returns, and the bytes left are the queue's.
pub run_refines :
    (c : ℕ) (os : List Op) {b : Buffer}
    → IsValid b
    → b.capacity ≤ c
    → Affords c os
    → (b' : Buffer) × (run b os ≡ some ((queue_run (contents b) os).0, b'))
      × IsValid b'
      × (contents b' ≡ (queue_run (contents b) os).1)
unfolding run queue_run
run_refines c [] {b} v le a = (b, refl, v, refl)
run_refines c (o ∷ os) {b} v le (a, as') =
    let (b', e, v', k, le') = apply_refines c o v le a in
    let (b'', es, v'', ks) = run_refines (cost c o) os {b = b'} v' le' as' in
    (
      b'',
      rw e (rw es (ap (λ q. some ((queue_apply (contents b) o).0 ∷ (queue_run q os).0, b'')) k)),
      v'',
      ks ∙ ap (λ q. (queue_run q os).1) k,
    )
