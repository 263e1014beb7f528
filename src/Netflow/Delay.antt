-- ===== src/Netflow/Delay.antt =====
-- The delay queue at a tick: which entries are handled, and which one is held for the next tick.
use go_netflow.Base.{
  ℕ, zero, suc, ◌<◌, ◌≡◌, refl, ◌∙◌, Bool, false, Option, none, some, List, [], ◌∷◌, arith,
  if◌then◌else◌, ltb, length, Bool-cases, inl, inr,
}
use go_netflow.Base.Int64.{Time}
use go_netflow.Netflow.{Netflow, DelayEntry, get_process_by_addr, increase_process_traffic}
use go_netflow.Netflow.Sync.{consume_delay_queue, handle_delay_entry, next_entry, drain}

-- The entries before the first that is younger than the rescan.
abbrev pub due : Time → List DelayEntry → List DelayEntry
due last_time [] = []
due last_time (e ∷ entries) = if ltb last_time e.timestamp then [] else e ∷ due last_time entries

-- The entries from there on.
abbrev pub young : Time → List DelayEntry → List DelayEntry
young last_time [] = []
young last_time (e ∷ entries) =
    if ltb last_time e.timestamp then e ∷ entries else young last_time entries

-- The entries handled one after the other.
abbrev pub handle_entries : (ℕ → Time) → ℕ → Netflow → List DelayEntry → Netflow
handle_entries clock zero nf entries = nf
handle_entries clock (suc n) nf [] = nf
handle_entries clock (suc n) nf (e ∷ entries) =
    handle_entries clock n (handle_delay_entry nf e (clock n)) entries

abbrev pub head : List DelayEntry → Option DelayEntry
head [] = none
head (e ∷ entries) = some e

abbrev pub tail : List DelayEntry → List DelayEntry
tail [] = []
tail (e ∷ entries) = entries

-- A state with other items in its delay queue.
abbrev pub with_items : Netflow → List DelayEntry → Netflow
with_items nf items = record nf { delay_queue = record nf.delay_queue { items = items } }

-- Handling an entry does not look at the queue.
handle_delay_entry-with_items :
    (nf : Netflow) (items : List DelayEntry) (e : DelayEntry) (clock : Time)
    → handle_delay_entry (with_items nf items) e clock
      ≡ with_items (handle_delay_entry nf e clock) items
unfolding handle_delay_entry get_process_by_addr increase_process_traffic
handle_delay_entry-with_items nf items e clock = ground arith

handle_delay_entry-ctx_done :
    (nf : Netflow) (e : DelayEntry) (clock : Time)
    → (handle_delay_entry nf e clock).ctx_done ≡ nf.ctx_done
unfolding handle_delay_entry increase_process_traffic
handle_delay_entry-ctx_done nf e clock = ground arith

-- One round that finds an entry.
drain_step :
    (fuel : ℕ) (clock : ℕ → Time) (take_done : Bool) (last_time : Time) (nf : Netflow)
    (e : DelayEntry) (items : List DelayEntry)
    → nf.ctx_done ≡ false
    → drain (suc fuel) clock take_done last_time none (with_items nf (e ∷ items)) ≡ (
        if ltb last_time e.timestamp
        then some (some e, with_items nf items)
        else drain fuel clock take_done last_time none
            (handle_delay_entry (with_items nf items) e (clock fuel)))
unfolding drain next_entry consume_delay_queue
drain_step fuel clock take_done last_time nf e items live = ground arith

drain_items :
    (items : List DelayEntry) (fuel : ℕ) (clock : ℕ → Time) (take_done : Bool) (last_time : Time)
    (nf : Netflow)
    → nf.ctx_done ≡ false
    → length items < fuel
    → drain fuel clock take_done last_time none (with_items nf items)
      ≡ some (
        head (young last_time items),
        with_items
            (handle_entries clock fuel nf (due last_time items))
            (tail (young last_time items)),
      )
drain_items items zero clock take_done last_time nf live h = elim h [ ]
drain_items [] (suc fuel) clock take_done last_time nf live h =
    unfold drain next_entry consume_delay_queue in refl
drain_items (e ∷ items) (suc fuel) clock take_done last_time nf live h =
    drain_step fuel clock take_done last_time nf e items live
    ∙ elim (Bool-cases (ltb last_time e.timestamp)) [
      | inl younger ↦ rw younger
      | inr older ↦
          rw (older, handle_delay_entry-with_items)
            (drain_items items fuel clock take_done last_time (handle_delay_entry nf e (clock fuel))
              (handle_delay_entry-ctx_done nf e (clock fuel) ∙ live) (omega arith))
    ]

-- At a tick of a live context, with fuel beyond the length of the queue, the loop that holds no
-- entry ends: it has handled, in order and once each, exactly the entries before the first that is
-- younger than the rescan; it holds that one, and the queue keeps those behind it.
pub drain_lem :
    (fuel : ℕ) (clock : ℕ → Time) (take_done : Bool) (last_time : Time) (nf : Netflow)
    → nf.ctx_done ≡ false
    → length nf.delay_queue.items < fuel
    → let items = nf.delay_queue.items in
      drain fuel clock take_done last_time none nf
      ≡ some (
        head (young last_time items),
        with_items
            (handle_entries clock fuel nf (due last_time items))
            (tail (young last_time items)),
      )
drain_lem fuel clock take_done last_time nf live h =
    drain_items nf.delay_queue.items fuel clock take_done last_time nf live h
