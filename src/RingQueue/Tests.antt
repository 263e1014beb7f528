-- ===== src/RingQueue/Tests.antt =====
-- Instances of the theorems on the ring queue, on a queue of four slots.
use go_netflow.Base.{ℕ, ◌+◌, ◌≡◌, refl, none, some, [], ◌∷◌, set, arith}
use go_netflow.Base.Outcome.{returns}
use go_netflow.RingQueue.{RingQueue, new_ring_queue, add, remove, write, next_tail, bit_and}
use go_netflow.RingQueue.Laws.{IsRingQueue, add_overwrites}

-- After three calls of `Add` and one of `Remove` on a new queue of four slots.
abbrev used : RingQueue ℕ
used = record { buf = none ∷ some 2 ∷ some 3 ∷ none ∷ []; head = 1; tail = 3; count = 2 }

one : RingQueue ℕ
one = record { buf = some 1 ∷ none ∷ none ∷ none ∷ []; head = 0; tail = 1; count = 1 }

add_first : add (new_ring_queue 4) 1 ≡ returns (some one)
unfolding add new_ring_queue write next_tail one
add_first = refl

three : RingQueue ℕ
three = record { buf = some 1 ∷ some 2 ∷ some 3 ∷ none ∷ []; head = 0; tail = 3; count = 3 }

remove-three : remove three ≡ returns (some 1, used)
unfolding remove write bit_and three
remove-three = refl

used-IsRingQueue : IsRingQueue used
used-IsRingQueue = record { fits = omega arith; head_in = omega arith; tail_in = omega arith }

add_overwrites_example :
    (q' : RingQueue ℕ) × (q'' : RingQueue ℕ) × (add used 4 ≡ returns (some q'))
    × (add q' 5 ≡ returns (some q''))
    × (q''.buf ≡ set used.buf 3 (some 5))
    × (q''.count ≡ 2 + 2)
add_overwrites_example = add_overwrites used 4 5 refl (omega arith)
