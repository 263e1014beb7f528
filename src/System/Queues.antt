-- ===== src/System/Queues.antt =====
-- The queues of a running monitor: no packet that was accepted is lost, taken twice or taken out of
-- order, and no queue outgrows its channel.
use go_netflow.Base.{
  ℕ, zero, suc, ◌+◌, ◌%◌, ◌≡◌, refl, sym, ap, ◌∙◌, subst, Bool, false, Option, none, some, List, [],
  ◌∷◌, ◌++◌, ltb, All, get_elem?, All-set, All-get_elem?, set, map, length, length-append,
  replicate, arith, Bool-cases, inl, inr, ◌⊎◌,
}
use mathlib.Core.List.{append_assoc}
use go_netflow.Base.Bytes.{Bytes}
use go_netflow.Base.Dict.{Dict}
use go_netflow.Base.Int64.{Time, mod64}
use go_netflow.Controller.{Ptr}
use go_netflow.Netflow.{Netflow, Chan, GoPacket, DelayEntry, try_send, enqueue, dequeue}
use go_netflow.Netflow.Sync.{clean_up}
use go_netflow.Netflow.Options.{Opt, ok, new}
use go_netflow.Netflow.Config.{new-capacity, new-fresh}
use go_netflow.System.Keeps.{
  Fits, Keeps, handle_packet-Keeps, sync_round-Keeps, rescan_resouce-Keeps, get_process_rank-Keeps,
}
use go_netflow.System.{
  Tap, new_tap, Worker, Syncer, System, buffer_packet, forward_packet, Step, pass, capture, close,
  forward, take_packet, leave, handle, tick, round, quit, clean, rank, mix, mixed, cancel, Reach,
  here, next, launch,
}

-- The packets that the workers hold.
abbrev pub weight : Worker → ℕ
weight Worker.idle = 0
weight (Worker.holds pkt) = 1
weight Worker.ended = 0

abbrev pub holding : List Worker → ℕ
holding [] = 0
holding (w ∷ workers) = weight w + holding workers

-- What the queues of a running monitor satisfy.
pub record IsQueued (s : System) : Type 0 where
  pub fifo : s.accepted ≡ s.taken ++ s.nf.packet_queue.items
  pub counted : s.nf.counter ≡ length s.accepted % mod64
  pub balanced : length s.taken ≡ s.handled + holding s.workers
  pub packets_fit : Fits s.nf.packet_queue
  pub delays_fit : Fits s.nf.delay_queue
  pub taps_fit : All (λ tap. Fits tap.buffer) s.taps

abbrev first_weight : Option Worker → ℕ
first_weight none = 0
first_weight (some w) = weight w

holding-set :
    (workers : List Worker) (i : ℕ) (w w' : Worker)
    → get_elem? workers i ≡ some w
    → holding (set workers i w') + weight w ≡ holding workers + weight w'
holding-set [] i w w' h = cc
holding-set (v ∷ workers) zero w w' h = omega (arith, ap first_weight h)
holding-set (v ∷ workers) (suc i) w w' h = omega (arith, holding-set workers i w w' h)

-- A packet that is forwarded is accepted behind the others, or lost.
forward_packet-IsQueued :
    (s : System) (i : ℕ) (tap : Tap) (pkt : GoPacket) (rest : List GoPacket)
    → IsQueued s
    → get_elem? s.taps i ≡ some tap
    → tap.buffer.items ≡ pkt ∷ rest
    → IsQueued (forward_packet s i tap pkt rest)
unfolding forward_packet enqueue try_send
forward_packet-IsQueued s i tap pkt rest v h e =
    let lower = All-get_elem? (λ t. Fits t.buffer) s.taps i tap v.taps_fit h in
    let taps' =
      All-set (λ t. Fits t.buffer) s.taps i
        (record tap { buffer = record tap.buffer { items = rest } }) v.taps_fit
        (omega (arith, ap length e)) in
    let room = ltb (length s.nf.packet_queue.items) s.nf.packet_queue.capacity in
    elim (Bool-cases room) [
      | inl yes_room ↦
          rw (enqueue, try_send, yes_room)
            (record {
              fifo =
                  ap (λ a. a ++ pkt ∷ []) v.fifo
                  ∙ append_assoc s.taken s.nf.packet_queue.items (pkt ∷ []);
              counted = omega (arith, v.counted, length-append s.accepted (pkt ∷ []));
              balanced = v.balanced;
              packets_fit =
                  ground (arith, yes_room, length-append s.nf.packet_queue.items (pkt ∷ []));
              delays_fit = v.delays_fit;
              taps_fit = taps';
            })
      | inr no_room ↦
          rw (enqueue, try_send, no_room)
            (record {
              fifo = v.fifo;
              counted = v.counted;
              balanced = v.balanced;
              packets_fit = v.packets_fit;
              delays_fit = v.delays_fit;
              taps_fit = taps';
            })
    ]

buffer_packet-Fits :
    (tap : Tap) (pkt : GoPacket) → Fits tap.buffer → Fits (buffer_packet tap pkt).buffer
unfolding buffer_packet try_send
buffer_packet-Fits tap pkt h = ground (arith, h, length-append tap.buffer.items (pkt ∷ []))

-- A step that does not touch the packets.
kept-IsQueued :
    (s : System) (nf' : Netflow) (now' : Time) (syncer' : Syncer)
    → IsQueued s
    → Keeps s.nf nf'
    → IsQueued (record s { nf = nf'; now = now'; syncer = syncer' })
kept-IsQueued s nf' now' syncer' v (same, count, delays) = record {
  fifo = v.fifo ∙ ap (λ (q : Chan GoPacket). s.taken ++ q.items) (sym same);
  counted = count ∙ v.counted;
  balanced = v.balanced;
  packets_fit = subst (λ (q : Chan GoPacket). Fits q) (sym same) v.packets_fit;
  delays_fit = delays v.delays_fit;
  taps_fit = v.taps_fit;
}

-- A step of one device.
tapped-IsQueued :
    (s : System) (i : ℕ) (tap : Tap)
    → IsQueued s
    → Fits tap.buffer
    → IsQueued (record s { taps = set s.taps i tap })
tapped-IsQueued s i tap v h = record {
  fifo = v.fifo;
  counted = v.counted;
  balanced = v.balanced;
  packets_fit = v.packets_fit;
  delays_fit = v.delays_fit;
  taps_fit = All-set (λ t. Fits t.buffer) s.taps i tap v.taps_fit h;
}

-- A step of one worker, that does not take a packet.
worked-IsQueued :
    (s : System) (i : ℕ) (w w' : Worker) (nf' : Netflow) (handled' : ℕ)
    → IsQueued s
    → Keeps s.nf nf'
    → get_elem? s.workers i ≡ some w
    → handled' + weight w' ≡ s.handled + weight w
    → IsQueued (record s { nf = nf'; workers = set s.workers i w'; handled = handled' })
worked-IsQueued s i w w' nf' handled' v keeps h e =
    let k = kept-IsQueued s nf' s.now s.syncer v keeps in
    record {
      fifo = k.fifo;
      counted = k.counted;
      balanced = omega (arith, holding-set s.workers i w w' h, v.balanced, e);
      packets_fit = k.packets_fit;
      delays_fit = k.delays_fit;
      taps_fit = k.taps_fit;
    }

pub List-cases : {A : Type 0} (xs : List A) → (xs ≡ []) ⊎ ((x : A) × (r : List A) × (xs ≡ x ∷ r))
List-cases [] = inl refl
List-cases (x ∷ xs) = inr (x, xs, refl)

-- What `dequeue` hands out is the head of the queue.
pub dequeue-eq_some :
    (take_done : Bool) (nf nf' : Netflow) (pkt : GoPacket)
    → dequeue take_done nf ≡ some (some pkt, nf')
    → (rest : List GoPacket) × (nf.packet_queue.items ≡ pkt ∷ rest)
      × (nf' ≡ record nf { packet_queue = record nf.packet_queue { items = rest } })
unfolding dequeue
dequeue-eq_some take_done nf nf' pkt e = elim (List-cases nf.packet_queue.items) [
  | inl q ↦ absurd (ground (arith, q, e))
  | inr (x, rest, q) ↦ (rest, ground (arith, q, e), ground (arith, q, e))
]

pub dequeue-eq_nil :
    (take_done : Bool) (nf nf' : Netflow) → dequeue take_done nf ≡ some (none, nf') → nf' ≡ nf
unfolding dequeue
dequeue-eq_nil take_done nf nf' e = elim (List-cases nf.packet_queue.items) [
  | inl q ↦ ground (arith, q, e)
  | inr (x, rest, q) ↦ ground (arith, q, e)
]

Step-IsQueued :
    (users : Dict Bytes) (sort_by : (Ptr → Ptr → Bool) → List Ptr → List Ptr) {s t : System}
    → Step users sort_by s t
    → IsQueued s
    → IsQueued t
Step-IsQueued users sort_by {s} (pass t h g) v =
    kept-IsQueued s s.nf t s.syncer v (refl, refl, λ h. h)
Step-IsQueued users sort_by {s} (capture i tap pkt h g) v =
    tapped-IsQueued s i (buffer_packet tap pkt) v
      (buffer_packet-Fits tap pkt (All-get_elem? (λ t. Fits t.buffer) s.taps i tap v.taps_fit h))
Step-IsQueued users sort_by {s} (close i tap h g) v =
    tapped-IsQueued s i (record tap { running = false }) v
      (All-get_elem? (λ t. Fits t.buffer) s.taps i tap v.taps_fit h)
Step-IsQueued users sort_by {s} (forward i tap pkt rest h e) v =
    forward_packet-IsQueued s i tap pkt rest v h e
Step-IsQueued users sort_by {s} (take_packet i take_done pkt nf' h e) v =
    let (rest, q, same) = dequeue-eq_some take_done s.nf nf' pkt e in
    subst
      (λ n. IsQueued (record s {
        nf = n;
        workers = set s.workers i (Worker.holds pkt);
        taken = s.taken ++ pkt ∷ [];
      }))
      (sym same)
      (record {
        fifo = v.fifo ∙ ap (λ r. s.taken ++ r) q ∙ sym (append_assoc s.taken (pkt ∷ []) rest);
        counted = v.counted;
        balanced = omega (
          arith,
          holding-set s.workers i Worker.idle (Worker.holds pkt) h,
          v.balanced,
          length-append s.taken (pkt ∷ []),
        );
        packets_fit = omega (arith, ap length q, v.packets_fit);
        delays_fit = v.delays_fit;
        taps_fit = v.taps_fit;
      })
Step-IsQueued users sort_by {s} (leave i take_done nf' h e) v =
    worked-IsQueued s i Worker.idle Worker.ended nf' s.handled v
      (subst (λ x. Keeps s.nf x) (sym (dequeue-eq_nil take_done s.nf nf' e)) (refl, refl, λ h. h)) h
      refl
Step-IsQueued users sort_by {s} (handle i pkt clock h at) v =
    worked-IsQueued s i (Worker.holds pkt) Worker.idle _ (s.handled + 1) v
      (handle_packet-Keeps s.nf pkt clock) h (omega arith)
Step-IsQueued users sort_by {s} (tick fs lines found nf' entry p f e) v =
    kept-IsQueued s nf' s.now _ v (rescan_resouce-Keeps users s.nf nf' lines found e)
Step-IsQueued users sort_by {s} (round take_done clock last_time entry p at) v =
    kept-IsQueued s _ s.now _ v (sync_round-Keeps take_done clock last_time entry s.nf)
Step-IsQueued users sort_by {s} (quit entry p g) v =
    kept-IsQueued s s.nf s.now _ v (refl, refl, λ h. h)
Step-IsQueued users sort_by {s} clean v =
    unfold clean_up in kept-IsQueued s (clean_up s.nf s.now) s.now s.syncer v (refl, refl, λ h. h)
Step-IsQueued users sort_by {s} (rank limit sec clock r nf' e) v =
    kept-IsQueued s nf' s.now s.syncer v
      (get_process_rank-Keeps sort_by s.nf nf' limit sec clock r e)
Step-IsQueued users sort_by {s} (mix x ring) v =
    unfold mixed in kept-IsQueued s (mixed s.nf x ring) s.now s.syncer v (refl, refl, λ h. h)
Step-IsQueued users sort_by {s} cancel v = kept-IsQueued s _ s.now s.syncer v (refl, refl, λ h. h)

taps_fit_lem : {A : Type 0} (xs : List A) → All (λ tap. Fits tap.buffer) (map (λ _. new_tap) xs)
taps_fit_lem [] = tt
taps_fit_lem (x ∷ xs) = (omega arith, taps_fit_lem xs)

holding-replicate : (n : ℕ) → holding (replicate n Worker.idle) ≡ 0
holding-replicate zero = refl
holding-replicate (suc n) = omega (arith, holding-replicate n)

launch-IsQueued :
    (ips devs : Dict (Unit {0})) (opts : List Opt) (nf : Netflow) (now : Time)
    → new ips devs opts ≡ ok nf
    → IsQueued (launch nf now)
launch-IsQueued ips devs opts nf now e =
    let (packets, delays) = new-capacity ips devs opts nf e in
    record {
      fifo = sym (ap (λ (q : Chan GoPacket). q.items) packets);
      counted = (new-fresh ips devs opts nf e).0;
      balanced = omega (arith, holding-replicate nf.worker_num);
      packets_fit = subst (λ (q : Chan GoPacket). Fits q) (sym packets) (omega arith);
      delays_fit = subst (λ (q : Chan DelayEntry). Fits q) (sym delays) (omega arith);
      taps_fit = taps_fit_lem nf.bind_devices;
    }

-- However the goroutines of a monitor that `New` made interleave: the packets that `enqueue`
-- accepted are those that the workers took, followed by those that wait, in one order, and the
-- counter is their number modulo 2 ^ 64; each packet taken is handled or held by a worker; and
-- neither queue, nor the buffer of a device, is longer than the capacity of its channel.
pub Reach-IsQueued :
    (users : Dict Bytes) (sort_by : (Ptr → Ptr → Bool) → List Ptr → List Ptr)
    (ips devs : Dict (Unit {0})) (opts : List Opt) (nf : Netflow) (now : Time) {s : System}
    → new ips devs opts ≡ ok nf
    → Reach users sort_by (launch nf now) s
    → IsQueued s
Reach-IsQueued users sort_by ips devs opts nf now e here = launch-IsQueued ips devs opts nf now e
Reach-IsQueued users sort_by ips devs opts nf now e (next r st) =
    Step-IsQueued users sort_by st (Reach-IsQueued users sort_by ips devs opts nf now e r)
