-- ===== src/Netstat/States.antt =====
-- types.go: `StateMapping`, the states by their text in /proc/net/tcp, and `hexToDec` of netstat.go,
-- which ends the process for a text that is no number. Nothing uses either.
use go_netflow.Base.{◌≡◌, refl, Option, none, some, [], ◌∷◌, if◌then◌else◌}
use go_netflow.Base.Bytes.{Bytes, codes}
use go_netflow.Base.Dict.{Dict}
use go_netflow.Base.Int64.{Int64}
use go_netflow.Base.Strconv.{parse_int, parse_uint, scan, digit}
use go_netflow.Netstat.{states}

abbrev state_mapping : Dict Bytes
state_mapping =
    (codes "01", codes "ESTABLISHED")
    ∷ (codes "02", codes "SYN_SENT")
    ∷ (codes "03", codes "SYN_RECV")
    ∷ (codes "04", codes "FIN_WAIT1")
    ∷ (codes "05", codes "FIN_WAIT2")
    ∷ (codes "06", codes "TIME_WAIT")
    ∷ (codes "07", codes "CLOSE")
    ∷ (codes "08", codes "CLOSE_WAIT")
    ∷ (codes "09", codes "LAST_ACK")
    ∷ (codes "0A", codes "LISTEN")
    ∷ (codes "0B", codes "CLOSING")
    ∷ []

-- `hexToDec`; `none` is the end of the process.
unfoldable hex_to_dec : Bytes → Option Int64
hex_to_dec h = if (parse_int 16 32 h).1 then some (parse_int 16 32 h).0 else none

-- Every entry of the table is an entry of `states` at the number of its text.
IsConsistent : Dict Bytes → Type 0
IsConsistent [] = Unit {0}
IsConsistent ((h, name) ∷ m) =
    ((n : Int64) × (hex_to_dec h ≡ some n) × (states n ≡ name)) × IsConsistent m

state_mapping-states : IsConsistent state_mapping
unfolding hex_to_dec states parse_int IsConsistent parse_uint scan digit
state_mapping-states = (
  (1, refl, refl),
  (
    (2, refl, refl),
    (
      (3, refl, refl),
      (
        (4, refl, refl),
        (
          (5, refl, refl),
          (
            (6, refl, refl),
            (
              (7, refl, refl),
              ((8, refl, refl), ((9, refl, refl), ((10, refl, refl), ((11, refl, refl), tt)))),
            ),
          ),
        ),
      ),
    ),
  ),
)
