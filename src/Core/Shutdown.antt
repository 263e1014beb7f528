-- ===== src/Core/Shutdown.antt =====
-- How many signals end the command.
use go_netflow.Base.{
  ℕ, ◌+◌, ◌≤◌, ◌<◌, ◌≡◌, refl, ap, ◌∙◌, Bool, false, true, [], ◌∷◌, arith, Option-cases, inl, inr,
  length, length-append,
}
use go_netflow.Netflow.{try_send}
use go_netflow.Netflow.Sends.{try_send_lem}
use go_netflow.Core.{
  Loop, waits, gone, Command, launch, notify, handle_signal, leave_start, Step, signal, handle,
  exit, time_out, capture_ends, rank_ends, Reach, here, next,
}

abbrev pub count : Loop → ℕ
count waits = 0
count gone = 1

-- How often the timer has stopped the monitor.
abbrev pub fired : Bool → ℕ
fired false = 0
fired true = 1

-- Every signal that was accepted waits, or ended one of the two readers.
pub record IsBalanced (s : Command) : Type 0 where
  pub signals : s.accepted ≡ length s.sigch.items + count s.handler + s.taken
  pub room : length s.sigch.items ≤ 1
  pub capacity : s.sigch.capacity ≡ 1
  pub once : s.taken ≤ count s.main
  pub stopped : s.stops ≡ count s.main + fired s.expired
  pub handled : s.handler ≡ gone → s.ctx_done ≡ true
  pub left : s.main ≡ gone → s.ctx_done ≡ true

notify-IsBalanced : (s : Command) (sig : ℕ) → IsBalanced s → IsBalanced (notify s sig)
unfolding notify
notify-IsBalanced s sig v = elim (Option-cases (try_send s.sigch sig)) [
  | inl e ↦ rw (notify, e) v
  | inr (ch, e) ↦
      let (items, same, fits) = try_send_lem s.sigch ch sig e in
      let longer = length-append s.sigch.items (sig ∷ []) in
      rw (notify, e)
        (record {
          signals = omega (arith, v.signals, longer, ap length items);
          room = omega (arith, v.capacity, fits);
          capacity = same ∙ v.capacity;
          once = v.once;
          stopped = v.stopped;
          handled = v.handled;
          left = v.left;
        })
]

Step-IsBalanced : {s t : Command} → Step s t → IsBalanced s → IsBalanced t
unfolding handle_signal leave_start
Step-IsBalanced {s} (signal sig) v = notify-IsBalanced s sig v
Step-IsBalanced {s} (handle sig rest h e) v = record {
  signals = omega (arith, v.signals, ap length e, ap count h);
  room = omega (arith, v.room, ap length e);
  capacity = v.capacity;
  once = v.once;
  stopped = v.stopped;
  handled = λ x. refl;
  left = λ x. refl;
}
Step-IsBalanced {s} (exit sig rest h e) v = record {
  signals = omega (arith, v.signals, ap length e);
  room = omega (arith, v.room, ap length e);
  capacity = v.capacity;
  once = omega (arith, v.once, ap count h);
  stopped = omega (arith, v.stopped, ap count h);
  handled = λ x. refl;
  left = λ x. refl;
}
Step-IsBalanced {s} (time_out h) v = record {
  signals = v.signals;
  room = v.room;
  capacity = v.capacity;
  once = omega (arith, v.once, ap count h);
  stopped = omega (arith, v.stopped, ap count h);
  handled = λ x. refl;
  left = λ x. refl;
}
Step-IsBalanced {s} (capture_ends h) v = record {
  signals = v.signals;
  room = v.room;
  capacity = v.capacity;
  once = v.once;
  stopped = omega (arith, v.stopped, ap fired h);
  handled = v.handled;
  left = v.left;
}
Step-IsBalanced {s} (rank_ends h e) v = record {
  signals = v.signals;
  room = v.room;
  capacity = v.capacity;
  once = v.once;
  stopped = v.stopped;
  handled = v.handled;
  left = v.left;
}

Reach-IsBalanced : {s t : Command} → Reach s t → IsBalanced s → IsBalanced t
Reach-IsBalanced here v = v
Reach-IsBalanced (next r st) v = Step-IsBalanced st (Reach-IsBalanced r v)

launch-IsBalanced : IsBalanced launch
launch-IsBalanced = record {
  signals = refl;
  room = omega arith;
  capacity = refl;
  once = omega arith;
  stopped = refl;
  handled = λ h. absurd (ground (arith, h));
  left = λ h. absurd (ground (arith, h));
}

count-gone : (l : Loop) → 0 < count l → l ≡ gone
count-gone waits h = absurd (omega (arith, h))
count-gone gone h = refl

count-le : (l : Loop) → count l ≤ 1
count-le waits = omega arith
count-le gone = omega arith

-- Once the channel has accepted two signals and none of them waits, `Start` has returned and the
-- context is cancelled, in whatever order the goroutines read; so it has after three signals that
-- were accepted. The monitor was stopped once if `Start` has returned, and once more if the timer of
-- its capture has fired: no more than twice, and not at all if neither has happened.
pub shutdown :
    {t : Command}
    → Reach launch t
    → (2 ≤ t.accepted → t.sigch.items ≡ [] → (t.main ≡ gone) × (t.ctx_done ≡ true))
      × (3 ≤ t.accepted → (t.main ≡ gone) × (t.ctx_done ≡ true))
      × (t.stops ≡ count t.main + fired t.expired)
shutdown {t} r =
    let v = Reach-IsBalanced r launch-IsBalanced in
    let ends : 0 < t.taken → (t.main ≡ gone) × (t.ctx_done ≡ true) =
      λ h. (let left = count-gone t.main (omega (arith, h, v.once)) in (left, v.left left)) in
    (
      λ h e. ends (omega (arith, h, v.signals, ap length e, count-le t.handler)),
      λ h. ends (omega (arith, h, v.signals, v.room, count-le t.handler)),
      v.stopped,
    )
