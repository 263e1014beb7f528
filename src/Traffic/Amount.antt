-- ===== src/Traffic/Amount.antt =====
-- The bytes that a ring holds, against the packets that were counted.
use go_netflow.Base.{
  ℕ, ◌+◌, ◌%◌, ◌≤◌, ◌<◌, ◌≡◌, refl, List, [], ◌∷◌, ◌++◌, arith, if◌then◌else◌, ◌==◌, leb, ltb,
  length, Bool-cases, inl, inr,
}
use go_netflow.Base.Int64.{Int64, Time, unix, mod64, half64, ltb64}
use go_netflow.Traffic.{
  TrafficEntry, Process, SideOption, input_side, output_side, shrink, note_last, increase_input,
  increase_output, increase_process_traffic,
}
use go_netflow.Traffic.Ring.{
  IsRing, Ascending, Until, Until-mono, oldest_le, increase, length-shrink,
  increase_process_traffic-IsRing,
}

-- The bytes of one direction in the entries from second `b` on, with no bound.
abbrev pub amount : (TrafficEntry → ℕ) → ℕ → List TrafficEntry → ℕ
amount w b [] = 0
amount w b (e ∷ ring) = (if leb b e.timestamp then w e else 0) + amount w b ring

-- The field of an entry that a side counts.
abbrev pub bytes_of : SideOption → TrafficEntry → ℕ
bytes_of input_side e = e.in_bytes
bytes_of output_side e = e.out_bytes

amount-shrink :
    (w : TrafficEntry → ℕ) (b last : ℕ) (p : Process)
    → IsRing last p
    → last < b + 60
    → amount w b (shrink p).ring ≡ amount w b p.ring
unfolding shrink
amount-shrink w b last p v h = go p.ring v.ascending v.past
  where
    go :
        (ring : List TrafficEntry)
        → Ascending ring
        → Until last ring
        → amount w b (shrink (record p { ring = ring })).ring ≡ amount w b ring
    go [] a u = refl
    go (e ∷ ring) a u = ground (arith, oldest_le e ring last a u)

module _ (w : TrafficEntry → ℕ) (update : TrafficEntry → TrafficEntry) (item : TrafficEntry) (b : ℕ)
    (same : (e : TrafficEntry) → (update e).timestamp ≡ e.timestamp)
    (adds : (e : TrafficEntry) → w (update e) % mod64 ≡ (w e + w item) % mod64) where
  abbrev gain : ℕ
  gain = if leb b item.timestamp then w item else 0

  amount-note_last :
      (e : TrafficEntry) (ring : List TrafficEntry)
      → amount w b (note_last update item (e ∷ ring)) % mod64
        ≡ (amount w b (e ∷ ring) + gain) % mod64
  unfolding note_last
  amount-note_last e [] = ground (arith, same e, adds e)
  amount-note_last e (f ∷ ring) = omega (arith, amount-note_last f ring)

  amount-concat :
      (ring : List TrafficEntry) → amount w b (ring ++ item ∷ []) ≡ amount w b ring + gain
  amount-concat [] = omega arith
  amount-concat (e ∷ ring) = omega (arith, amount-concat ring)

  amount-note_last_pos :
      (ring : List TrafficEntry)
      → 0 < length ring
      → amount w b (note_last update item ring) % mod64 ≡ (amount w b ring + gain) % mod64
  amount-note_last_pos [] h = elim h [ ]
  amount-note_last_pos (e ∷ ring) h = amount-note_last e ring

  amount-increase :
      (last : ℕ) (p : Process)
      → IsRing last p
      → last < b + 60
      → amount w b (increase update item p).ring % mod64 ≡ (amount w b p.ring + gain) % mod64
  amount-increase last p v h = elim (Bool-cases (length p.ring == 0)) [
    | inl empty ↦ rw (empty, amount-concat)
    | inr more ↦
        rw (more, ← amount-shrink w b last p v h)
          (amount-note_last_pos (shrink p).ring (length-shrink p (ground arith)))
  ]

-- One call of `increaseProcessTraffic`.
pub record Packet : Type 0 where
  pub clock : Time
  pub size : Int64
  pub side : SideOption

-- The process after the packets, in order.
unfoldable pub replay : Process → List Packet → Process
replay p [] = p
replay p (k ∷ packets) = replay (increase_process_traffic p k.size k.side k.clock) packets

-- The bytes of the direction `side` that a packet of `n` bytes in direction `dir` brings.
abbrev pub counted : SideOption → SideOption → ℕ → ℕ
counted input_side input_side n = n
counted input_side output_side n = 0
counted output_side input_side n = 0
counted output_side output_side n = n

-- The bytes of one direction among the packets from second `b` on.
abbrev pub total : SideOption → ℕ → List Packet → ℕ
total side b [] = 0
total side b (k ∷ packets) =
    (if leb b (unix k.clock) then counted side k.side k.size else 0) + total side b packets

-- The clock is never set back, and `now` is not before the last packet.
abbrev pub Rising : ℕ → List Packet → ℕ → Type 0
Rising last [] now = last ≤ now
Rising last (k ∷ packets) now = (last ≤ unix k.clock) × Rising (unix k.clock) packets now

pub Rising-le : (last : ℕ) (packets : List Packet) (now : ℕ) → Rising last packets now → last ≤ now
Rising-le last [] now r = r
Rising-le last (k ∷ packets) now r = omega (arith, Rising-le (unix k.clock) packets now r.1)

amount-increase_process_traffic :
    (side dir : SideOption) (b last : ℕ) (p : Process) (n : Int64) (clock : Time)
    → IsRing last p
    → last < b + 60
    → amount (bytes_of side) b (increase_process_traffic p n dir clock).ring % mod64
      ≡ (amount (bytes_of side) b p.ring + (if leb b (unix clock) then counted side dir n else 0))
        % mod64
unfolding increase_process_traffic increase_input increase_output
amount-increase_process_traffic input_side input_side b last p n clock v h =
    amount-increase (bytes_of input_side) _ _ b (λ e. refl) (λ e. omega arith) last p v h
amount-increase_process_traffic input_side output_side b last p n clock v h =
    amount-increase (bytes_of input_side) _ _ b (λ e. refl) (λ e. omega arith) last p v h
amount-increase_process_traffic output_side input_side b last p n clock v h =
    amount-increase (bytes_of output_side) _ _ b (λ e. refl) (λ e. omega arith) last p v h
amount-increase_process_traffic output_side output_side b last p n clock v h =
    amount-increase (bytes_of output_side) _ _ b (λ e. refl) (λ e. omega arith) last p v h

pub replay-IsRing :
    (last now : ℕ) (p : Process) (packets : List Packet)
    → IsRing last p
    → Rising last packets now
    → IsRing now (replay p packets)
unfolding replay
replay-IsRing last now p [] v r = record {
  bounded = v.bounded;
  ascending = v.ascending;
  past = Until-mono p.ring last now r v.past;
}
replay-IsRing last now p (k ∷ packets) v r =
    replay-IsRing (unix k.clock) now _ packets
      (increase_process_traffic-IsRing last p k.size k.side k.clock v r.0) r.1

pub amount-replay :
    (side : SideOption) (b last now : ℕ) (p : Process) (packets : List Packet)
    → IsRing last p
    → Rising last packets now
    → now < b + 60
    → amount (bytes_of side) b (replay p packets).ring % mod64
      ≡ (amount (bytes_of side) b p.ring + total side b packets) % mod64
unfolding replay
amount-replay side b last now p [] v r h = omega arith
amount-replay side b last now p (k ∷ packets) v r h =
    let p' = increase_process_traffic p k.size k.side k.clock in
    let v' = increase_process_traffic-IsRing last p k.size k.side k.clock v r.0 in
    let bound = Rising-le (unix k.clock) packets now r.1 in
    omega (
      arith,
      amount-replay side b (unix k.clock) now p' packets v' r.1 h,
      amount-increase_process_traffic side k.side b last p k.size k.clock v (omega arith),
    )

pub ltb64-eq-ltb : (a b : ℕ) → a < half64 → b < half64 → ltb64 a b ≡ ltb a b
ltb64-eq-ltb a b ha hb = ground arith
