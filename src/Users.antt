-- ===== src/Users.antt =====
-- user.go: `loadSystemUsersInfo`, over the complete lines of /etc/passwd. (A last line without its
-- end is not read, and a read error ends the loop, as its empty line has one field.)
pub mod Laws
mod Tests
use go_netflow.Base.{Option, none, some, List, [], ◌∷◌, if◌then◌else◌, ◌==◌, length}
use go_netflow.Base.Bytes.{Bytes, split}
use go_netflow.Base.Dict.{Dict, insert}
use go_netflow.Base.Outcome.{Outcome, panic, returns, ◌>>=◌, index}

-- `systemUsers[items[2]] = items[0]`
unfoldable pub add_user : Dict Bytes → List Bytes → Outcome (Dict Bytes)
add_user users items = do uid ← index items 2; name ← index items 0; returns (insert uid name users)

-- The loop of `loadSystemUsersInfo`.
unfoldable pub load_lines : Dict Bytes → List Bytes → Outcome (Dict Bytes)
load_lines users [] = returns users
load_lines users (line ∷ lines) =
    let items = split line b':' in
    let rest = (do users' ← add_user users items; load_lines users' lines) in
    if length items == 2 then rest else returns users

-- `loadSystemUsersInfo`: `none` is a file that does not open. A nil map reads as an empty one.
unfoldable pub load_users : Option (List Bytes) → Outcome (Dict Bytes)
load_users none = returns []
load_users (some lines) = load_lines [] lines
