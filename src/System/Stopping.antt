-- ===== src/System/Stopping.antt =====
-- The end of the workers, once the context is cancelled and no more packets come.
use go_netflow.Base.{
  ℕ, zero, suc, ◌+◌, ◌*◌, ◌≤◌, ◌≡◌, ◌≢◌, refl, ap, ◌∙◌, Bool, true, false, not, ◌&&◌, Option, none,
  some, List, [], ◌∷◌, if◌then◌else◌, get_elem?, set, length, arith, inl, inr, ◌⊎◌,
}
use go_netflow.Base.Bytes.{Bytes}
use go_netflow.Base.Dict.{Dict}
use go_netflow.Base.Int64.{Time}
use go_netflow.Controller.{Ptr}
use go_netflow.Netflow.{
  Netflow, Chan, GoPacket, DelayEntry, enqueue, increase_process_traffic, dequeue,
}
use go_netflow.Netflow.Sync.{clean_up, next_entry, consume_delay_queue, handle_delay_entry}
use go_netflow.Netflow.Worker.{handle_packet-ctx_done}
use go_netflow.Netflow.Rescan.{rescan_resouce-eq_returns, get_process_rank-eq_some}
use go_netflow.System.Keeps.{
  Keeps, handle_packet-Keeps, sync_round-Keeps, rescan_resouce-Keeps, get_process_rank-Keeps,
}
use go_netflow.System.Queues.{dequeue-eq_some, dequeue-eq_nil, List-cases}
use go_netflow.System.{
  Worker, System, sync_round, forward_packet, Step, pass, capture, close, forward, take_packet,
  leave, handle, tick, round, quit, clean, rank, mix, mixed, cancel, Reach, here, next,
}

-- The steps that a worker can still take, on its own.
abbrev pub energy : Worker → ℕ
energy Worker.idle = 1
energy (Worker.holds pkt) = 2
energy Worker.ended = 0

abbrev pub energies : List Worker → ℕ
energies [] = 0
energies (w ∷ workers) = energy w + energies workers

-- The steps that the workers can still take: three at most for each packet that waits.
abbrev pub potential : System → ℕ
potential s = 3 * length s.nf.packet_queue.items + energies s.workers

abbrev first_energy : Option Worker → ℕ
first_energy none = 0
first_energy (some w) = energy w

energies-set :
    (workers : List Worker) (i : ℕ) (w w' : Worker)
    → get_elem? workers i ≡ some w
    → energies (set workers i w') + energy w ≡ energies workers + energy w'
energies-set [] i w w' h = cc
energies-set (v ∷ workers) zero w w' h = omega (arith, ap first_energy h)
energies-set (v ∷ workers) (suc i) w w' h = omega (arith, energies-set workers i w w' h)

energies-le : (workers : List Worker) → energies workers ≤ 2 * length workers
energies-le [] = omega arith
energies-le (Worker.idle ∷ workers) = omega (arith, energies-le workers)
energies-le (Worker.holds pkt ∷ workers) = omega (arith, energies-le workers)
energies-le (Worker.ended ∷ workers) = omega (arith, energies-le workers)

Worker-cases : (w : Worker) → (w ≡ Worker.ended) ⊎ (w ≢ Worker.ended)
Worker-cases Worker.idle = inr (cc)
Worker-cases (Worker.holds pkt) = inr (cc)
Worker-cases Worker.ended = inl refl

module _ (users : Dict Bytes) (sort_by : (Ptr → Ptr → Bool) → List Ptr → List Ptr) where
  -- Whether a step is one of a worker, and whether it brings a packet to the queue.
  abbrev pub is_worker_step : {s t : System} → Step users sort_by s t → Bool
  is_worker_step (take_packet i take_done pkt nf' h e) = true
  is_worker_step (leave i take_done nf' h e) = true
  is_worker_step (handle i pkt clock h at) = true
  is_worker_step _ = false

  abbrev pub is_forward : {s t : System} → Step users sort_by s t → Bool
  is_forward (forward i tap pkt rest h e) = true
  is_forward _ = false

  -- The worker steps of a run, and whether it brings no packet to the queue.
  abbrev pub moves : {s t : System} → Reach users sort_by s t → ℕ
  moves here = 0
  moves (next r st) = moves r + (if is_worker_step st then 1 else 0)

  abbrev pub is_quiet : {s t : System} → Reach users sort_by s t → Bool
  is_quiet here = true
  is_quiet (next r st) = is_quiet r && not (is_forward st)

  kept-potential :
      (s : System) (nf' : Netflow)
      → Keeps s.nf nf'
      → 3 * length nf'.packet_queue.items + energies s.workers ≤ potential s
  kept-potential s nf' (same, _, _) = omega (arith, ap (λ (q : Chan GoPacket). length q.items) same)

  Step-potential :
      {s t : System} (st : Step users sort_by s t)
      → is_forward st ≡ false
      → potential t + (if is_worker_step st then 1 else 0) ≤ potential s
  Step-potential (pass t h g) f = omega arith
  Step-potential (capture i tap pkt h g) f = omega arith
  Step-potential (close i tap h g) f = omega arith
  Step-potential (forward i tap pkt rest h e) f = cc
  Step-potential {s} (take_packet i take_done pkt nf' h e) f =
      let (rest, q, same) = dequeue-eq_some take_done s.nf nf' pkt e in
      omega (
        arith,
        ap length q,
        ap (λ (n : Netflow). length n.packet_queue.items) same,
        energies-set s.workers i Worker.idle (Worker.holds pkt) h,
      )
  Step-potential {s} (leave i take_done nf' h e) f = omega (
    arith,
    ap (λ (n : Netflow). length n.packet_queue.items) (dequeue-eq_nil take_done s.nf nf' e),
    energies-set s.workers i Worker.idle Worker.ended h,
  )
  Step-potential {s} (handle i pkt clock h at) f = omega (
    arith,
    ap (λ (q : Chan GoPacket). length q.items) (handle_packet-Keeps s.nf pkt clock).0,
    energies-set s.workers i (Worker.holds pkt) Worker.idle h,
  )
  Step-potential {s} (tick fs lines found nf' entry p g e) f =
      omega (arith, kept-potential s nf' (rescan_resouce-Keeps users s.nf nf' lines found e))
  Step-potential {s} (round take_done clock last_time entry p at) f =
      omega (arith, kept-potential s _ (sync_round-Keeps take_done clock last_time entry s.nf))
  Step-potential (quit entry p g) f = omega arith
  Step-potential {s} clean f =
      unfold clean_up in omega (arith, kept-potential s (clean_up s.nf s.now) (refl, refl, λ h. h))
  Step-potential {s} (rank limit sec clock r nf' e) f =
      omega
        (arith, kept-potential s nf' (get_process_rank-Keeps sort_by s.nf nf' limit sec clock r e))
  Step-potential {s} (mix x ring) f =
      unfold mixed in omega (arith, kept-potential s (mixed s.nf x ring) (refl, refl, λ h. h))
  Step-potential {s} cancel f = omega arith

  moves-le :
      {s t : System} (r : Reach users sort_by s t)
      → is_quiet r ≡ true
      → moves r + potential t ≤ potential s
  moves-le here q = omega arith
  moves-le (next r st) q =
      let quiet : is_quiet r ≡ true = ground (arith, q) in
      let still : is_forward st ≡ false = ground (arith, q) in
      omega (arith, moves-le r quiet, Step-potential st still)

  round-ctx_done :
      (take_done : Bool) (now last_time : Time) (entry : Option DelayEntry) (nf : Netflow)
      → (sync_round take_done now last_time entry nf).1.ctx_done ≡ nf.ctx_done
  unfolding sync_round next_entry consume_delay_queue handle_delay_entry increase_process_traffic
  round-ctx_done take_done now last_time none nf = ground arith
  round-ctx_done take_done now last_time (some e) nf = ground arith

  -- A context that is cancelled stays so.
  Step-ctx_done :
      {s t : System} → Step users sort_by s t → s.nf.ctx_done ≡ true → t.nf.ctx_done ≡ true
  unfolding forward_packet enqueue clean_up
  Step-ctx_done (pass t h g) d = d
  Step-ctx_done (capture i tap pkt h g) d = d
  Step-ctx_done (close i tap h g) d = d
  Step-ctx_done (forward i tap pkt rest h e) d = ground arith
  Step-ctx_done {s} (take_packet i take_done pkt nf' h e) d =
      let (_, _, same) = dequeue-eq_some take_done s.nf nf' pkt e in
      ap (λ (n : Netflow). n.ctx_done) same ∙ d
  Step-ctx_done {s} (leave i take_done nf' h e) d =
      ap (λ (n : Netflow). n.ctx_done) (dequeue-eq_nil take_done s.nf nf' e) ∙ d
  Step-ctx_done {s} (handle i pkt clock h at) d = handle_packet-ctx_done s.nf pkt clock ∙ d
  Step-ctx_done {s} (tick fs lines found nf' entry p g e) d =
      let (m, same, _) = rescan_resouce-eq_returns users s.nf nf' lines found e in
      ap (λ (n : Netflow). n.ctx_done) same ∙ d
  Step-ctx_done {s} (round take_done clock last_time entry p at) d =
      round-ctx_done take_done clock last_time entry s.nf ∙ d
  Step-ctx_done (quit entry p g) d = d
  Step-ctx_done clean d = d
  Step-ctx_done {s} (rank limit sec clock r nf' e) d =
      elim (get_process_rank-eq_some sort_by s.nf nf' limit sec clock r e) [
        | inl same ↦ ap (λ (n : Netflow). n.ctx_done) same ∙ d
        | inr same ↦ ap (λ (n : Netflow). n.ctx_done) same ∙ d
      ]
  Step-ctx_done (mix x ring) d = unfold mixed in d
  Step-ctx_done cancel d = refl

  Reach-ctx_done :
      {s t : System} → Reach users sort_by s t → s.nf.ctx_done ≡ true → t.nf.ctx_done ≡ true
  Reach-ctx_done here d = d
  Reach-ctx_done (next r st) d = Step-ctx_done st (Reach-ctx_done r d)

  -- A worker that has not ended can always step once the context is cancelled.
  worker_progress :
      (s : System) (i : ℕ) (w : Worker)
      → s.nf.ctx_done ≡ true
      → get_elem? s.workers i ≡ some w
      → w ≢ Worker.ended
      → (t : System) × (st : Step users sort_by s t) × (is_worker_step st ≡ true)
  unfolding dequeue
  worker_progress s i (Worker.holds pkt) done h ne = (_, handle i pkt s.now h (omega arith), refl)
  worker_progress s i Worker.ended done h ne = absurd (ne refl)
  worker_progress s i Worker.idle done h ne = elim (List-cases s.nf.packet_queue.items) [
    | inl q ↦ (_, leave i true s.nf h (ground (arith, done, q)), refl)
    | inr (pkt, rest, q) ↦ (_, leave i true s.nf h (ground (arith, done, q)), refl)
  ]

  -- After the context is cancelled, in any run that brings no packet to the queue: the workers
  -- take three steps at most for each packet that waits and two for each worker, and as long as
  -- one of them has not ended, it can take a step. (So each worker that is scheduled ends.)
  pub workers_end :
      {s t : System} (r : Reach users sort_by s t)
      → is_quiet r ≡ true
      → s.nf.ctx_done ≡ true
      → (moves r ≤ 3 * length s.nf.packet_queue.items + 2 * length s.workers)
        × ((i : ℕ) (w : Worker)
            → get_elem? t.workers i ≡ some w
            → (w ≡ Worker.ended)
              ⊎ ((u : System) × (st : Step users sort_by t u) × (is_worker_step st ≡ true)))
  workers_end {s} {t} r q d = (
    omega (arith, moves-le r q, energies-le s.workers),
    λ i w h. worker_ends i w h (Worker-cases w),
  )
    where
      worker_ends :
          (i : ℕ) (w : Worker)
          → get_elem? t.workers i ≡ some w
          → (w ≡ Worker.ended) ⊎ (w ≢ Worker.ended)
          → (w ≡ Worker.ended)
            ⊎ ((u : System) × (st : Step users sort_by t u) × (is_worker_step st ≡ true))
      worker_ends i w h (inl e) = inl e
      worker_ends i w h (inr n) = inr (worker_progress t i w (Reach-ctx_done r d) h n)
