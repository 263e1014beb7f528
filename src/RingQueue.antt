-- ===== src/RingQueue.antt =====
-- ringqueue.go: the bounded queue `ringQueue`. Its lock makes each method one step. An empty slot,
-- nil, is `none`; an index out of range is a panic.
pub mod Laws
mod Tests
use go_netflow.Base.{
  ℕ, zero, suc, ◌+◌, ◌-◌, ◌*◌, ◌/◌, ◌%◌, Option, none, some, List, [], ◌∷◌, if◌then◌else◌, ◌==◌,
  ltb, length, set, replicate,
}
use go_netflow.Base.Outcome.{Outcome, panic, returns, ◌>>=◌, index}

-- `ringQueue`
pub record RingQueue (A : Type 0) : Type 0 where
  pub buf : List (Option A)
  pub head : ℕ
  pub tail : ℕ
  pub count : ℕ

module _ {A : Type 0} where
  -- `newRingQueue`
  unfoldable pub new_ring_queue : ℕ → RingQueue A
  new_ring_queue size = record { buf = replicate size none; head = 0; tail = 0; count = 0 }

  -- `Length`
  unfoldable pub size : RingQueue A → ℕ
  size q = q.count

  -- `q.buf[i] = v`
  unfoldable pub write : List (Option A) → ℕ → Option A → Outcome (List (Option A))
  write buf i v = if ltb i (length buf) then returns (set buf i v) else panic

  -- The end of `Add`: the tail moves to the next slot, if there is one, and to the first one once
  -- the queue is full.
  unfoldable pub next_tail : RingQueue A → ℕ → ℕ
  next_tail q count =
      if length q.buf == count
      then 0
      else if ltb (q.tail + 1) (length q.buf)
      then q.tail + 1
      else q.tail

  -- `Add`: `returns none` is the error, a full queue.
  unfoldable pub add : RingQueue A → A → Outcome (Option (RingQueue A))
  add q elem = if q.count == length q.buf then returns none else do
    buf' ← write q.buf q.tail (some elem)
    returns (some (record q { buf = buf'; tail = next_tail q (q.count + 1); count = q.count + 1 }))

  -- `Peek`
  unfoldable pub peek : RingQueue A → Outcome (Option A)
  peek q = if q.count == 0 then returns none else index q.buf q.head

-- `a & b`, bit by bit, for the bits of `b` that the fuel reaches; `b` of it is enough.
unfoldable pub bit_and : ℕ → ℕ → ℕ → ℕ
bit_and zero a b = 0
bit_and (suc fuel) a b = (a % 2) * (b % 2) + 2 * bit_and fuel (a / 2) (b / 2)

module _ {A : Type 0} where
  -- `Remove`: the entry at the head, or nil if there is none. The head advances by a mask, which is
  -- the next slot only for a size that is a power of two.
  unfoldable pub remove : RingQueue A → Outcome (Option A × RingQueue A)
  remove q =
      let mask = length q.buf - 1 in
      if q.count == 0 then returns (none, q) else do
        ret ← index q.buf q.head
        buf' ← write q.buf q.head none
        returns (
          ret,
          record q { buf = buf'; head = bit_and mask (q.head + 1) mask; count = q.count - 1 },
        )
