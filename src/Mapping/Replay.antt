-- ===== src/Mapping/Replay.antt =====
-- `Mapping` against its specification, a function from keys to entries: what a client sees after
-- any sequence of writes.
use go_netflow.Base.{
  ◌≡◌, refl, ◌∙◌, Bool, true, false, Option, none, some, List, [], ◌∷◌, arith, if◌then◌else◌,
}
use go_netflow.Base.Bytes.{Bytes, bytes_eq}
use go_netflow.Base.Dict.{
  lookup, lookup-insert, lookup-delete, lookup-keep, insert-Distinct, keep-Distinct,
  delete-Distinct,
}
use go_netflow.Base.Int64.{Int64, Time}
use go_netflow.Mapping.{Mapping, Entry, new_mapping, add, cleanup, is_expired, exists, get, delete}
use go_netflow.Mapping.Laws.{IsMapping}

-- A call of a method that writes, with the time of the call.
pub data Write : Type 0 where
  adds : Bytes → Bytes → Time → Write
  deletes : Bytes → Write
  cleans : Int64 → Time → Write

unfoldable pub apply : Write → Mapping → Mapping
apply (adds key value clock) m = add m key value clock
apply (deletes key) m = delete m key
apply (cleans expiration now) m = cleanup m expiration now

unfoldable pub replay : List Write → Mapping → Mapping
replay [] m = m
replay (w ∷ ws) m = replay ws (apply w m)

-- The specification of a write, and of a sequence of them: the entry of each key.
unfoldable pub note : Write → (Bytes → Option Entry) → Bytes → Option Entry
note (adds key value clock) f j =
    if bytes_eq key j then some (record { value = value; timestamp = clock }) else f j
note (deletes key) f j = if bytes_eq key j then none else f j
note (cleans expiration now) f j = elim (f j) [
  | none ↦ none
  | some e ↦ if is_expired expiration now e then none else some e
]

unfoldable pub notes : List Write → (Bytes → Option Entry) → Bytes → Option Entry
notes [] f = f
notes (w ∷ ws) f = notes ws (note w f)

-- The mapping has the entries that the function gives.
pub record Stores (m : Mapping) (f : Bytes → Option Entry) : Type 0 where
  pub distinct : IsMapping m
  pub same : (j : Bytes) → lookup j m.dict ≡ f j

pub apply-IsMapping : (w : Write) (m : Mapping) → IsMapping m → IsMapping (apply w m)
unfolding apply add delete cleanup
apply-IsMapping (adds key value clock) m d = insert-Distinct key _ m.dict d
apply-IsMapping (deletes key) m d = delete-Distinct key m.dict d
apply-IsMapping (cleans expiration now) m d = keep-Distinct _ m.dict d

pub apply-lookup :
    (w : Write) (m : Mapping) (f : Bytes → Option Entry) (j : Bytes)
    → Stores m f
    → lookup j (apply w m).dict ≡ note w f j
unfolding apply note add delete cleanup
apply-lookup (adds key value clock) m f j v = lookup-insert key j _ m.dict ∙ rw (v.same j) refl
apply-lookup (deletes key) m f j v = lookup-delete key j m.dict ∙ rw (v.same j) refl
apply-lookup (cleans expiration now) m f j v =
    lookup-keep _ j m.dict v.distinct ∙ rw (v.same j) (ground arith)

pub replay-Stores :
    (ws : List Write) (m : Mapping) (f : Bytes → Option Entry)
    → Stores m f
    → Stores (replay ws m) (notes ws f)
unfolding replay notes
replay-Stores [] m f v = v
replay-Stores (w ∷ ws) m f v =
    replay-Stores ws (apply w m) (note w f)
      (record { distinct = apply-IsMapping w m v.distinct; same = λ j. apply-lookup w m f j v })

-- The answers of `Get` and of `Exists`, by the specification.
abbrev pub found : Option Entry → Bytes × Bool
found none = ([], false)
found (some e) = (e.value, true)

abbrev pub holds : Option Entry → Bytes → Bool
holds none value = false
holds (some e) value = bytes_eq e.value value

pub answers :
    (m : Mapping) (key value : Bytes) (o : Option Entry)
    → lookup key m.dict ≡ o
    → (get m key ≡ found o) × (exists m key value ≡ holds o value)
unfolding get exists
answers m key value none e = ground (arith, e)
answers m key value (some v) e = ground (arith, e)

-- After any sequence of calls of `Add`, `Delete` and `Cleanup` on a new mapping, `Get` and `Exists`
-- answer for every key by the entry that the last call about the key left: that of an `Add`,
-- until a `Delete` of the key or a `Cleanup` for which it is too old.
pub get-replay :
    (ws : List Write) (key value : Bytes)
    → (get (replay ws new_mapping) key ≡ found (notes ws (λ _. none) key))
      × (exists (replay ws new_mapping) key value ≡ holds (notes ws (λ _. none) key) value)
get-replay ws key value =
    let v =
      replay-Stores ws new_mapping (λ _. none)
        (record { distinct = tt; same = λ j. unfold lookup in refl }) in
    answers (replay ws new_mapping) key value _ (v.same key)
