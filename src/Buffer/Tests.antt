-- ===== src/Buffer/Tests.antt =====
-- Runs of the buffer, and each theorem about evpp/buffer.h at one of them.
use evpp.Base.{◌≡◌, refl, List, [], ◌∷◌, ◌++◌, some, arith}
use evpp.Base.Memory.{patch, copy_in, copy_out}
use evpp.Buffer.{
  Buffer, write, prepend, got, read_from_fd, buffer_length, writable_bytes, ensure_writable_bytes,
  grow, reallocate, prependable_bytes,
}
use evpp.Buffer.Bounds.{IsValid}
use evpp.Buffer.Room.{contents}
use evpp.Buffer.Contents.{prepend_lem, read_from_fd_lem}
use evpp.Buffer.Refine.{Op, puts, takes, skips, cuts, run, queue_run, run_refines}

-- Five bytes of "a\r\nbc" behind two reserved ones, in a storage of eight.
abbrev greeting : Buffer
greeting = record {
  storage = 0 ∷ 0 ∷ b'a' ∷ b'\r' ∷ b'\n' ∷ b'b' ∷ b'c' ∷ 0 ∷ [];
  capacity = 8;
  read_index = 2;
  write_index = 7;
  reserved_prepend_size = 2;
}

greeting-IsValid : IsValid greeting
greeting-IsValid = omega arith

-- Room is made by a storage of 2 * 8 + 2 bytes.
write_grows :
    write greeting (1 ∷ 2 ∷ [])
    ≡ some (record greeting {
      storage =
          0 ∷ 0 ∷ b'a' ∷ b'\r' ∷ b'\n' ∷ b'b' ∷ b'c' ∷ 1 ∷ 2 ∷ 0 ∷ 0 ∷ 0 ∷ 0 ∷ 0 ∷ 0 ∷ 0 ∷ 0 ∷ 0
          ∷ [];
      capacity = 18;
      write_index = 9;
    })
unfolding write ensure_writable_bytes writable_bytes grow prependable_bytes reallocate buffer_length
    copy_in copy_out patch
write_grows = refl

prepend_lem_example :
    (b' : Buffer) × (prepend greeting (9 ∷ []) ≡ some b')
    × IsValid b'
    × (contents b' ≡ 9 ∷ contents greeting)
prepend_lem_example = prepend_lem (9 ∷ []) greeting-IsValid (omega arith)

read_from_fd_lem_example :
    (b' : Buffer) × (read_from_fd greeting (got (1 ∷ 2 ∷ 3 ∷ [])) ≡ some b')
    × IsValid b'
    × (contents b' ≡ contents greeting ++ 1 ∷ 2 ∷ 3 ∷ [])
read_from_fd_lem_example = read_from_fd_lem (1 ∷ 2 ∷ 3 ∷ []) greeting-IsValid (omega arith)

-- The length of a message in front of it.
abbrev framed : Buffer
framed = record greeting { storage = 0 ∷ 0 ∷ 1 ∷ 2 ∷ 3 ∷ 4 ∷ 7 ∷ 0 ∷ [] }

abbrev unframed : Buffer
unframed = record framed { read_index = 6 }

abbrev script : List Op
script = takes 2 ∷ puts (5 ∷ 6 ∷ 7 ∷ []) ∷ skips 1 ∷ cuts 3 ∷ takes 9 ∷ []

run_refines_example :
    (b' : Buffer) × (run greeting script ≡ some ((queue_run (contents greeting) script).0, b'))
    × IsValid b'
    × (contents b' ≡ (queue_run (contents greeting) script).1)
run_refines_example = run_refines 8 script greeting-IsValid (omega arith) (omega arith)

queue_run-script :
    queue_run (contents greeting) script
    ≡ ((b'a' ∷ b'\r' ∷ []) ∷ [] ∷ [] ∷ [] ∷ (b'b' ∷ b'c' ∷ 5 ∷ []) ∷ [], [])
unfolding queue_run
queue_run-script = refl
