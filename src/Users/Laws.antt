-- ===== src/Users/Laws.antt =====
-- What `loadSystemUsersInfo` loads.
use go_netflow.Base.{
  ◌≡◌, refl, Option, none, some, List, [], ◌∷◌, length, ◌==◌, ◌⊎◌, arith, Bool-cases, inl, inr,
}
use go_netflow.Base.Bytes.{Bytes, split}
use go_netflow.Base.Dict.{Dict, lookup}
use go_netflow.Base.Outcome.{panic, returns}
use go_netflow.Users.{add_user, load_lines, load_users}
use go_netflow.Netstat.{get_user_by_uid}

add_user-two :
    (users : Dict Bytes) (items : List Bytes) → length items ≡ 2 → add_user users items ≡ panic
unfolding add_user
add_user-two users [] h = refl
add_user-two users (a ∷ []) h = refl
add_user-two users (a ∷ b ∷ []) h = refl
add_user-two users (a ∷ b ∷ c ∷ items) h = ground arith

load_users-cases :
    (file : Option (List Bytes)) → (load_users file ≡ panic) ⊎ (load_users file ≡ returns [])
unfolding load_users load_lines
load_users-cases none = inr refl
load_users-cases (some []) = inr refl
load_users-cases (some (line ∷ lines)) = elim (Bool-cases (length (split line b':') == 2)) [
  | inl e ↦ inl (rw e (rw (add_user-two [] (split line b':') (ground (arith, e))) refl))
  | inr e ↦ inr (rw e refl)
]

-- No file loads a user: after a load that does not panic, every user id has the empty name. (The
-- loop stops at a line that has not two fields, and reads the third field of one that has.)
pub get_user_by_uid-load_users :
    (file : Option (List Bytes)) (users : Dict Bytes) (uid : Bytes)
    → load_users file ≡ returns users
    → get_user_by_uid users uid ≡ []
unfolding get_user_by_uid lookup
get_user_by_uid-load_users file users uid h = ground (arith, load_users-cases file, h)
