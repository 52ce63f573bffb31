-- ===== src/State/Store/Files.antt =====
-- The snapshot files of internal/state/store.go as a map.
use larri.Prelude.{◌≡◌, refl, some, List, [], ◌∷◌, arith, if◌then◌else◌}
use larri.Prelude.Text.{Text, text_eq, text_eq_iff, text_eq_refl}
use larri.State.Store.{Snapshot, file_at, put_file}

pub file_at-put_file :
    (k j : Text) (s : Snapshot) (m : List (Text × Snapshot))
    → file_at j (put_file k s m) ≡ (if text_eq k j then some s else file_at j m)
unfolding file_at put_file
file_at-put_file k j s [] = refl
file_at-put_file k j s ((i, t) ∷ m) =
    ground (arith, text_eq_iff k j, text_eq_iff i k, text_eq_iff i j, file_at-put_file k j s m)

pub file_at-put_file_self :
    (k : Text) (s : Snapshot) (m : List (Text × Snapshot)) → file_at k (put_file k s m) ≡ some s
file_at-put_file_self k s m = rw (file_at-put_file k k s m, text_eq_refl k)
