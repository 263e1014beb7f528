-- ===== src/Mapping.antt =====
-- types.go: `Mapping`, the map from a connection's addresses to its socket inode, with the time of
-- each entry. Each method holds the lock for its whole body, so it is one step; `time.Now` is the
-- argument `clock`. The callback `cb` is never read, and `Handle` does nothing.
pub mod Laws
pub mod Replay
mod Tests
use go_netflow.Base.{ℕ, ◌≡◌, Bool, true, false, not, ◌&&◌, Option, none, some, List, [], length}
use go_netflow.Base.Bytes.{Bytes, bytes_eq}
use go_netflow.Base.Dict.{Dict, lookup, insert, keep, Distinct}
use go_netflow.Base.Dict
use go_netflow.Base.Int64.{Int64, Time, sub_time, ltb64}

-- `entry`
pub record Entry : Type 0 where
  pub value : Bytes
  pub timestamp : Time

-- `Mapping`
pub record Mapping : Type 0 where
  pub dict : Dict Entry

-- `NewMapping`
abbrev pub new_mapping : Mapping
new_mapping = record { dict = [] }

-- `Length`
unfoldable pub size : Mapping → ℕ
size m = length m.dict

-- `Add`
unfoldable pub add : Mapping → Bytes → Bytes → Time → Mapping
add m key value clock = record {
  dict = insert key (record { value = value; timestamp = clock }) m.dict;
}

-- The test of `Cleanup`: `now.Sub(e.timestamp) > expiration`.
abbrev pub is_expired : Int64 → Time → Entry → Bool
is_expired expiration now e = ltb64 expiration (sub_time now e.timestamp)

-- `Cleanup`
unfoldable pub cleanup : Mapping → Int64 → Time → Mapping
cleanup m expiration now = record {
  dict = keep (λ key e. not (is_expired expiration now e)) m.dict;
}

-- `Exists`
unfoldable pub exists : Mapping → Bytes → Bytes → Bool
exists m key value = elim (lookup key m.dict) [ none ↦ false | some v ↦ bytes_eq v.value value ]

-- `Get`
unfoldable pub get : Mapping → Bytes → Bytes × Bool
get m key = elim (lookup key m.dict) [ none ↦ ([], false) | some ent ↦ (ent.value, true) ]

-- `Delete`
unfoldable pub delete : Mapping → Bytes → Mapping
delete m k = record { dict = Dict.delete k m.dict }
