-- ===== src/RingQueue/Laws.antt =====
-- The bounds of the ring queue, and the entry that its `Add` overwrites.
use go_netflow.Base.{
  ℕ, zero, suc, ◌+◌, ◌*◌, ◌/◌, ◌%◌, ◌≤◌, ◌<◌, ◌≡◌, refl, ◌⊎◌, inl, inr, false, Option, none, some,
  List, [], ◌∷◌, ◌==◌, length, set, arith, length-set, ap, ◌∙◌, get_elem?_total, Bool-cases,
}
use go_netflow.Base.Outcome.{returns, index}
use go_netflow.RingQueue.{RingQueue, write, next_tail, add, bit_and}

-- The count is at most the length of the buffer, and head and tail are slots of it.
pub record IsRingQueue {A : Type 0} (q : RingQueue A) : Type 0 where
  pub fits : q.count ≤ length q.buf
  pub head_in : q.head < length q.buf
  pub tail_in : q.tail < length q.buf

bit_le : (m n : ℕ) → m < 2 → m * n ≤ n
bit_le zero n h = omega arith
bit_le (suc zero) n h = omega arith
bit_le (suc (suc m)) n h = omega arith

bit_and_le : (fuel a b : ℕ) → bit_and fuel a b ≤ b
unfolding bit_and
bit_and_le zero a b = omega arith
bit_and_le (suc fuel) a b =
    omega (arith, bit_le (a % 2) (b % 2) (omega arith), bit_and_le fuel (a / 2) (b / 2))

module _ {A : Type 0} where
  write-in :
      (buf : List (Option A)) (i : ℕ) (v : Option A)
      → i < length buf
      → write buf i v ≡ returns (set buf i v)
  unfolding write
  write-in buf i v h = ground (arith, h)

  index-in :
      (buf : List (Option A)) (i : ℕ) → i < length buf → (x : Option A) × (index buf i ≡ returns x)
  index-in buf i h = let (x, found) = get_elem?_total buf i h in (x, rw (index, found) refl)

  next_tail_lt : (q : RingQueue A) (n : ℕ) → q.tail < length q.buf → next_tail q n < length q.buf
  unfolding next_tail
  next_tail_lt q n h = ground (arith, h)

  -- `Add` on a queue that is not full.
  added : RingQueue A → A → RingQueue A
  added q elem = record q {
    buf = set q.buf q.tail (some elem);
    tail = next_tail q (q.count + 1);
    count = q.count + 1;
  }

  add-added :
      (q : RingQueue A) (elem : A)
      → (q.count == length q.buf) ≡ false
      → q.tail < length q.buf
      → add q elem ≡ returns (some (added q elem))
  unfolding add added
  add-added q elem ne h = rw ne (rw (write-in q.buf q.tail (some elem) h) refl)

  added-IsRingQueue :
      (q : RingQueue A) (elem : A)
      → IsRingQueue q
      → q.count < length q.buf
      → IsRingQueue (added q elem)
  unfolding added
  added-IsRingQueue q elem v h =
      let same = length-set q.buf q.tail (some elem) in
      record {
        fits = omega (arith, same);
        head_in = omega (arith, same, v.head_in);
        tail_in = omega (arith, same, next_tail_lt q (q.count + 1) v.tail_in);
      }

  -- On a queue with its bounds `Add` does not panic: it refuses exactly a full queue, and otherwise
  -- the bounds hold again, with one entry more.
  pub add-IsRingQueue :
      (q : RingQueue A) (elem : A)
      → IsRingQueue q
      → ((q.count ≡ length q.buf) × (add q elem ≡ returns none))
        ⊎ ((q' : RingQueue A) × (add q elem ≡ returns (some q'))
            × (q'.count ≡ q.count + 1)
            × IsRingQueue q')
  unfolding add added
  add-IsRingQueue q elem v = elim (Bool-cases (q.count == length q.buf)) [
    | inl e ↦ inl (ground (arith, e), rw e refl)
    | inr e ↦ inr (
      added q elem,
      add-added q elem e v.tail_in,
      refl,
      added-IsRingQueue q elem v (ground (arith, e, v.fits)),
    )
  ]

  last_tail :
      (q : RingQueue A) (n : ℕ)
      → q.tail + 1 ≡ length q.buf
      → n < length q.buf
      → next_tail q n ≡ q.tail
  unfolding next_tail
  last_tail q n last room = ground (arith, last, room)

  set-set : (xs : List (Option A)) (i : ℕ) (u v : Option A) → set (set xs i u) i v ≡ set xs i v
  set-set [] i u v = refl
  set-set (x ∷ xs) zero u v = refl
  set-set (x ∷ xs) (suc i) u v = ap (◌∷◌ x) (set-set xs i u v)

  -- With the tail at the last slot and two or more slots free, two entries are accepted, and the
  -- second takes the place of the first.
  pub add_overwrites :
      (q : RingQueue A) (x y : A)
      → q.tail + 1 ≡ length q.buf
      → q.count + 2 ≤ length q.buf
      → (q' : RingQueue A) × (q'' : RingQueue A) × (add q x ≡ returns (some q'))
        × (add q' y ≡ returns (some q''))
        × (q''.buf ≡ set q.buf q.tail (some y))
        × (q''.count ≡ q.count + 2)
  unfolding added
  add_overwrites q x y last room =
      let q' = added q x in
      let same = length-set q.buf q.tail (some x) in
      let stays = last_tail q (q.count + 1) last (omega (arith, room)) in
      (
        q',
        added q' y,
        add-added q x (ground (arith, room)) (omega (arith, last)),
        add-added q' y (ground (arith, room, same)) (omega (arith, last, same, stays)),
        ap (λ i. set (set q.buf q.tail (some x)) i (some y)) stays
            ∙ set-set q.buf q.tail (some x) (some y),
        omega arith,
      )
