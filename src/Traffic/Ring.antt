-- ===== src/Traffic/Ring.antt =====
-- The ring under `IncreaseInput` and `IncreaseOutput`: its size, the order of its entries, and the
-- bytes that it holds.
use go_netflow.Base.{
  ℕ, suc, ◌+◌, ◌%◌, ◌≤◌, ◌<◌, List, [], ◌∷◌, ◌++◌, ◌≡◌, refl, ap, ◌∙◌, Bool-cases, inl, inr, ==_iff,
  arith, if◌then◌else◌, ◌==◌, length, length-append, All,
}
use go_netflow.Base.Int64.{Int64, Time, unix, mod64}
use go_netflow.Traffic.{
  TrafficEntry, Process, SideOption, input_side, output_side, max_ring_size, shrink, tail,
  note_last, increase_input, increase_output, increase_process_traffic,
}

-- Each entry is of a later second than the one before it.
abbrev pub Ascending : List TrafficEntry → Type 0
Ascending [] = Unit {0}
Ascending (e ∷ []) = Unit {0}
Ascending (e ∷ f ∷ ring) = (e.timestamp < f.timestamp) × Ascending (f ∷ ring)

-- No entry is of a later second than `now`.
abbrev pub Until : ℕ → List TrafficEntry → Type 0
Until now = All (λ e. e.timestamp ≤ now)

-- What the ring of a process satisfies at second `now`.
pub record IsRing (now : ℕ) (p : Process) : Type 0 where
  pub bounded : length p.ring ≤ max_ring_size
  pub ascending : Ascending p.ring
  pub past : Until now p.ring

pub Until-mono : (ring : List TrafficEntry) (m n : ℕ) → m ≤ n → Until m ring → Until n ring
Until-mono [] m n h u = tt
Until-mono (e ∷ ring) m n h u = (omega arith, Until-mono ring m n h u.1)

-- A ring of `suc k` entries reaches back `k` seconds at least.
pub oldest_le :
    (e : TrafficEntry) (ring : List TrafficEntry) (now : ℕ)
    → Ascending (e ∷ ring)
    → Until now (e ∷ ring)
    → e.timestamp + length ring ≤ now
oldest_le e [] now a u = omega arith
oldest_le e (f ∷ ring) now a u = omega (arith, oldest_le f ring now a.1 u.1)

tail-Ascending : (ring : List TrafficEntry) → Ascending ring → Ascending (tail ring)
tail-Ascending [] a = tt
tail-Ascending (e ∷ []) a = tt
tail-Ascending (e ∷ f ∷ ring) a = a.1

tail-Until : (now : ℕ) (ring : List TrafficEntry) → Until now ring → Until now (tail ring)
tail-Until now [] u = tt
tail-Until now (e ∷ ring) u = u.1

length-tail :
    (ring : List TrafficEntry)
    → length (tail ring) + 1 ≡ length ring + (if length ring == 0 then 1 else 0)
length-tail [] = refl
length-tail (e ∷ ring) = ground arith

pub length-shrink : (p : Process) → 0 < length p.ring → 0 < length (shrink p).ring
unfolding shrink
length-shrink p h = ground (arith, length-tail p.ring)

shrink-IsRing :
    (now : ℕ) (p : Process)
    → IsRing now p
    → IsRing now (shrink p) × (length (shrink p).ring < max_ring_size)
unfolding shrink
shrink-IsRing now p v =
    ground
      (arith, tail-Ascending p.ring v.ascending, tail-Until now p.ring v.past, length-tail p.ring)

module _ (update : TrafficEntry → TrafficEntry) (item : TrafficEntry)
    (same : (e : TrafficEntry) → (update e).timestamp ≡ e.timestamp) where
  length-note_last :
      (ring : List TrafficEntry) → length (note_last update item ring) ≤ suc (length ring)
  unfolding note_last
  length-note_last [] = omega arith
  length-note_last (e ∷ []) = ground arith
  length-note_last (e ∷ f ∷ ring) = omega (arith, length-note_last (f ∷ ring))

  note_last-Ascending :
      (ring : List TrafficEntry)
      → Ascending ring
      → Until item.timestamp ring
      → Ascending (note_last update item ring)
  unfolding note_last
  note_last-Ascending [] a u = tt
  note_last-Ascending (e ∷ []) a u = ground arith
  note_last-Ascending (e ∷ f ∷ []) a u = ground (arith, same f)
  note_last-Ascending (e ∷ f ∷ g ∷ ring) a u = (a.0, note_last-Ascending (f ∷ g ∷ ring) a.1 u.1)

  note_last-Until :
      (ring : List TrafficEntry)
      → Until item.timestamp ring
      → Until item.timestamp (note_last update item ring)
  unfolding note_last
  note_last-Until [] u = tt
  note_last-Until (e ∷ []) u = ground (arith, same e)
  note_last-Until (e ∷ f ∷ ring) u = (u.0, note_last-Until (f ∷ ring) u.1)

-- The code that the two methods share.
abbrev pub increase : (TrafficEntry → TrafficEntry) → TrafficEntry → Process → Process
increase update item p =
    if length p.ring == 0
    then record p { ring = p.ring ++ item ∷ [] }
    else record (shrink p) { ring = note_last update item (shrink p).ring }

first_entry :
    (ring : List TrafficEntry) (item : TrafficEntry)
    → length ring ≡ 0
    → ring ++ item ∷ [] ≡ item ∷ []
first_entry [] item h = refl
first_entry (e ∷ ring) item h = absurd (omega arith)

increase-IsRing :
    (update : TrafficEntry → TrafficEntry) (item : TrafficEntry)
    → ((e : TrafficEntry) → (update e).timestamp ≡ e.timestamp)
    → (last : ℕ) (p : Process) → IsRing last p
    → last ≤ item.timestamp
    → IsRing item.timestamp (increase update item p)
increase-IsRing update item same last p v h = elim (Bool-cases (length p.ring == 0)) [
  | inl empty ↦ rw (empty, first_entry p.ring item ((==_iff _ 0).0 empty)) (omega arith)
  | inr more ↦
      let (w, room) = shrink-IsRing last p v in
      let u = Until-mono (shrink p).ring last item.timestamp h w.past in
      rw more (record {
        bounded = omega (arith, length-note_last update item same (shrink p).ring);
        ascending = note_last-Ascending update item same (shrink p).ring w.ascending u;
        past = note_last-Until update item same (shrink p).ring u;
      })
]

-- Counting bytes keeps the ring at 61 entries at most, with rising seconds, none after the clock's:
-- for either direction, when the clock reads no earlier second than at the call before.
pub increase_process_traffic-IsRing :
    (last : ℕ) (p : Process) (n : Int64) (side : SideOption) (clock : Time)
    → IsRing last p
    → last ≤ unix clock
    → IsRing (unix clock) (increase_process_traffic p n side clock)
unfolding increase_process_traffic increase_input increase_output
increase_process_traffic-IsRing last p n input_side clock v h =
    increase-IsRing _ _ (λ e. refl) last p v h
increase_process_traffic-IsRing last p n output_side clock v h =
    increase-IsRing _ _ (λ e. refl) last p v h

note_last_same :
    (update : TrafficEntry → TrafficEntry) (item last : TrafficEntry) (mid : List TrafficEntry)
    → last.timestamp ≡ item.timestamp
    → note_last update item (mid ++ last ∷ []) ≡ mid ++ update last ∷ []
unfolding note_last
note_last_same update item last [] same = ground (arith, same)
note_last_same update item last (e ∷ []) same = ground (arith, same)
note_last_same update item last (e ∷ f ∷ mid) same =
    ap (◌∷◌ e) (note_last_same update item last (f ∷ mid) same)

-- An entry with the bytes of a packet counted, modulo 2 ^ 64.
abbrev pub counted : SideOption → Int64 → TrafficEntry → TrafficEntry
counted input_side n e = record e { in_bytes = (e.in_bytes + n) % mod64 }
counted output_side n e = record e { out_bytes = (e.out_bytes + n) % mod64 }

increase-full :
    (update : TrafficEntry → TrafficEntry) (item : TrafficEntry) (p : Process)
    → length p.ring ≡ 61
    → (increase update item p).ring ≡ note_last update item (tail p.ring)
unfolding shrink
increase-full update item p long = rw long refl

full_ring :
    (update : TrafficEntry → TrafficEntry) (item first last : TrafficEntry)
    (mid : List TrafficEntry) (p : Process)
    → p.ring ≡ first ∷ (mid ++ last ∷ [])
    → length mid ≡ 59
    → last.timestamp ≡ item.timestamp
    → (increase update item p).ring ≡ mid ++ update last ∷ []
full_ring update item first last mid p e size same =
    let long : length p.ring ≡ 61 =
      ap length e ∙ omega (arith, size, length-append mid (last ∷ [])) in
    increase-full update item p long
    ∙ ap (λ r. note_last update item (tail r)) e
    ∙ note_last_same update item last mid same

-- A packet of the same second as the last entry of a full ring of 61 makes room that it does not
-- need: the oldest entry is dropped, those between stay, and the packet is counted in the last one,
-- so 60 are left.
pub increase_process_traffic_sheds :
    (p : Process) (n : Int64) (side : SideOption) (clock : Time) (first last : TrafficEntry)
    (mid : List TrafficEntry)
    → p.ring ≡ first ∷ (mid ++ last ∷ [])
    → length mid ≡ 59
    → last.timestamp ≡ unix clock
    → (increase_process_traffic p n side clock).ring ≡ mid ++ counted side n last ∷ []
unfolding increase_process_traffic increase_input increase_output
increase_process_traffic_sheds p n input_side clock first last mid e size same =
    full_ring _ _ first last mid p e size same
increase_process_traffic_sheds p n output_side clock first last mid e size same =
    full_ring _ _ first last mid p e size same
