-- ===== src/Mapping/Tests.antt =====
-- Runs of the mapping.
use go_netflow.Base.{none, List, ◌≡◌, refl, ◌∷◌, [], ◌*◌, true, false}
use go_netflow.Base.Bytes.{codes, bytes_eq}
use go_netflow.Base.Int64.{second}
use go_netflow.Mapping.{new_mapping, get, exists}
use go_netflow.Mapping.Replay.{
  adds, deletes, cleans, Write, replay, notes, note, found, holds, get-replay,
}

-- An entry that is added twice and outlives a cleanup, beside one that does not.
abbrev writes : List Write
writes =
    adds (codes "a") (codes "7") (100 * second)
    ∷ adds (codes "b") (codes "8") (100 * second)
    ∷ adds (codes "a") (codes "9") (200 * second)
    ∷ cleans (120 * second) (230 * second)
    ∷ deletes (codes "c")
    ∷ []

get-replay_example :
    (get (replay writes new_mapping) (codes "a") ≡ found (notes writes (λ _. none) (codes "a")))
    × (exists (replay writes new_mapping) (codes "a") (codes "9")
        ≡ holds (notes writes (λ _. none) (codes "a")) (codes "9"))
get-replay_example = get-replay writes (codes "a") (codes "9")

found_later :
    (found (notes writes (λ _. none) (codes "a")) ≡ (codes "9", true))
    × (found (notes writes (λ _. none) (codes "b")) ≡ ([], false))
unfolding notes note bytes_eq
found_later = (refl, refl)
