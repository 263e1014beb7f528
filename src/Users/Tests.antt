-- ===== src/Users/Tests.antt =====
-- Runs of the loader, and an instance of its theorem.
use go_netflow.Base.{◌≡◌, refl, some, List, [], ◌∷◌}
use go_netflow.Base.Bytes.{Bytes, codes}
use go_netflow.Base.Outcome.{returns, panic}
use go_netflow.Base.Bytes
use go_netflow.Users.{load_users, load_lines, add_user}
use go_netflow.Users.Laws.{get_user_by_uid-load_users}
use go_netflow.Netstat.{get_user_by_uid}

abbrev passwd : List Bytes
passwd = codes "root:x:0:0:root:/root:/bin/sh" ∷ []

load_users-passwd : load_users (some passwd) ≡ returns []
unfolding load_users load_lines Bytes.split
load_users-passwd = refl

load_users_two : load_users (some (codes "root:x" ∷ [])) ≡ panic
unfolding load_users load_lines add_user Bytes.split
load_users_two = refl

get_user_by_uid-load_users_example : get_user_by_uid [] (codes "0") ≡ []
get_user_by_uid-load_users_example =
    get_user_by_uid-load_users (some passwd) [] (codes "0") load_users-passwd
