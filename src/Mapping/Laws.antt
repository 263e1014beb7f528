-- ===== src/Mapping/Laws.antt =====
-- What a client of `Mapping` can rely on: no key twice, and what a read returns after each write.
use go_netflow.Base.{
  ◌+◌, ◌≡◌, true, false, not, none, some, [], ◌-◌, ◌≤◌, ◌<◌, ltb, arith, if◌then◌else◌,
}
use go_netflow.Base.Bytes.{Bytes, bytes_eq}
use go_netflow.Base.Dict.{
  lookup, Distinct, lookup-insert, lookup-delete, lookup-keep, insert-Distinct, keep-Distinct,
  delete-Distinct, length-insert, filtered,
}
use go_netflow.Base.Int64.{Int64, Time, half64}
use go_netflow.Mapping.{Mapping, Entry, size, add, cleanup, is_expired, exists, get, delete}

abbrev pub IsMapping : Mapping → Type 0
IsMapping m = Distinct m.dict

-- `Add`, `Delete` and `Cleanup` keep the keys of the mapping distinct.
pub writes-IsMapping :
    (m : Mapping) (key value : Bytes) (expiration : Int64) (clock : Time)
    → IsMapping m
    → IsMapping (add m key value clock)
      × IsMapping (delete m key)
      × IsMapping (cleanup m expiration clock)
unfolding add delete cleanup
writes-IsMapping m key value expiration clock d =
    (insert-Distinct key _ m.dict d, delete-Distinct key m.dict d, keep-Distinct _ m.dict d)

-- After `Add` a `Get` of the key returns the value, and a `Get` of any other key what it returned.
pub get-add :
    (m : Mapping) (key j value : Bytes) (clock : Time)
    → get (add m key value clock) j ≡ (if bytes_eq key j then (value, true) else get m j)
unfolding get add
get-add m key j value clock =
    ground (arith, lookup-insert key j (record { value = value; timestamp = clock }) m.dict)

-- After `Delete` a `Get` misses the key, and returns for any other key what it returned.
pub get-delete :
    (m : Mapping) (key j : Bytes)
    → get (delete m key) j ≡ (if bytes_eq key j then ([], false) else get m j)
unfolding get delete
get-delete m key j = ground (arith, lookup-delete key j m.dict)

-- `Exists` holds exactly if `Get` finds the value.
pub exists-get :
    (m : Mapping) (key value : Bytes)
    → exists m key value ≡ (if (get m key).1 then bytes_eq (get m key).0 value else false)
unfolding exists get
exists-get m key value = ground arith

-- `Add` makes the map longer by one for a new key, and leaves its length for a present one.
pub size-add :
    (m : Mapping) (key value : Bytes) (clock : Time)
    → size (add m key value clock) ≡ (if (get m key).1 then size m else size m + 1)
unfolding size add get
size-add m key value clock =
    ground (arith, length-insert key (record { value = value; timestamp = clock }) m.dict)

lookup-cleanup :
    (m : Mapping) (expiration : Int64) (now : Time) (j : Bytes)
    → IsMapping m
    → lookup j (cleanup m expiration now).dict
      ≡ filtered (λ _ e. not (is_expired expiration now e)) j (lookup j m.dict)
unfolding cleanup
lookup-cleanup m expiration now j d = lookup-keep _ j m.dict d

-- After `Cleanup` a `Get` misses an entry that is older than the expiration, and finds any other
-- entry with its value: for keys that are distinct, a positive expiration, and an entry from no
-- later than now and at most 2 ^ 63 - 1 nanoseconds ago.
pub get-cleanup :
    (m : Mapping) (expiration : Int64) (now : Time) (j : Bytes) (e : Entry)
    → IsMapping m
    → lookup j m.dict ≡ some e
    → expiration < half64
    → e.timestamp ≤ now
    → now - e.timestamp < half64
    → get (cleanup m expiration now) j
      ≡ (if ltb expiration (now - e.timestamp) then ([], false) else (e.value, true))
unfolding get
get-cleanup m expiration now j e d found hx hp hn =
    ground (arith, lookup-cleanup m expiration now j d)

-- `Cleanup` finds nothing that was not there.
pub get-cleanup_missing :
    (m : Mapping) (expiration : Int64) (now : Time) (j : Bytes)
    → IsMapping m
    → lookup j m.dict ≡ none
    → get (cleanup m expiration now) j ≡ ([], false)
unfolding get
get-cleanup_missing m expiration now j d missing =
    ground (arith, lookup-cleanup m expiration now j d)
