-- ===== src/Netflow/Sends.antt =====
-- A send in a `select` with a default, for the channels of every component.
use go_netflow.Base.{
  ◌≤◌, ◌≡◌, some, [], ◌∷◌, ◌++◌, arith, Bool-cases, inl, inr, ltb, length, length-append,
}
use go_netflow.Netflow.{Chan, try_send}

-- A send that does not take the default appends the item, within the capacity of the channel.
pub try_send_lem :
    {A : Type 0} (ch ch' : Chan A) (x : A)
    → try_send ch x ≡ some ch'
    → (ch'.items ≡ ch.items ++ x ∷ [])
      × (ch'.capacity ≡ ch.capacity)
      × (length ch'.items ≤ ch.capacity)
unfolding try_send
try_send_lem ch ch' x e = elim (Bool-cases (ltb (length ch.items) ch.capacity)) [
  | inl h ↦ (
    ground (arith, e, h),
    ground (arith, e, h),
    ground (arith, e, h, length-append ch.items (x ∷ [])),
  )
  | inr h ↦ absurd (ground (arith, e, h))
]
