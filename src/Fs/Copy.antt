-- ===== src/Fs/Copy.antt =====
-- `fs::copy`, `fs::set_permissions` and `fs::read_dir`.
use leviso.Base.{ℕ, String, List, [], ◌∷◌, Option, none, some, ◌==◌, if◌then◌else◌, true}
use leviso.Error.{io, Result, ok, err, not_found, is_a_directory, invalid_input, not_a_directory}
use leviso.Exec.{Exec}
use leviso.Fs.Path.{FilePath, drop_last}
use leviso.Fs.Table.{Table, insert}
use leviso.Fs.State.{Node, dir, file, link, Fs, node_at}
use leviso.Fs.Ops.{resolve, stat, put_node}
use leviso.Text.{Text}
use leviso.Base.{string_eq, list_eq}

-- The place at which a copy ends: a file of its own, or nothing. A file that is copied onto
-- itself is opened for writing first, and is empty then.
abbrev pub place_copy : Text → ℕ → Option FilePath → FilePath → Option Node → Exec Fs (Unit {0})
place_copy content mode from q (some dir) fs = (err (io is_a_directory), fs)
place_copy content mode from q (some (link target)) fs = (err (io not_found), fs)
place_copy content mode none q _ fs = (err (io not_found), fs)
place_copy content mode (some p) q (some (file old old_mode time)) fs =
    (ok tt, put_node q (file (if p == q then [] else content) mode fs.clock) fs)
place_copy content mode (some p) q none fs = (ok tt, put_node q (file content mode fs.clock) fs)

abbrev pub copy_to : Text → ℕ → Option FilePath → Option FilePath → Exec Fs (Unit {0})
copy_to content mode from none fs = (err (io not_found), fs)
copy_to content mode from (some q) fs = place_copy content mode from q (node_at fs q) fs

abbrev pub copy_node : Option FilePath → Option FilePath → Option Node → Exec Fs (Unit {0})
copy_node from to none fs = (err (io not_found), fs)
copy_node from to (some dir) fs = (err (io invalid_input), fs)
copy_node from to (some (link target)) fs = (err (io not_found), fs)
copy_node from to (some (file content mode time)) fs = copy_to content mode from to fs

-- Content and mode of a regular file; links are followed on both sides.
unfoldable pub copy : FilePath → FilePath → Exec Fs (Unit {0})
copy from to fs = copy_node (resolve fs true from) (resolve fs true to) (stat fs from) fs

abbrev chmod_at : ℕ → FilePath → Option Node → Exec Fs (Unit {0})
chmod_at mode q none fs = (err (io not_found), fs)
chmod_at mode q (some (file content old time)) fs =
    (ok tt, record fs { nodes = insert q (file content mode time) fs.nodes })
chmod_at mode q (some dir) fs = (ok tt, fs)
chmod_at mode q (some (link target)) fs = (err (io not_found), fs)

abbrev chmod_to : ℕ → Option FilePath → Exec Fs (Unit {0})
chmod_to mode none fs = (err (io not_found), fs)
chmod_to mode (some q) fs = chmod_at mode q (node_at fs q) fs

-- The mode of a directory is not in the state.
unfoldable pub set_permissions : FilePath → ℕ → Exec Fs (Unit {0})
set_permissions p mode fs = chmod_to mode (resolve fs true p) fs

abbrev last_name : String → FilePath → String
last_name x [] = x
last_name x (y ∷ r) = last_name y r

abbrev push_child : FilePath → FilePath → List String → List String
push_child p [] names = names
push_child p (x ∷ r) names = if drop_last (x ∷ r) == p then last_name x r ∷ names else names

unfoldable pub children : FilePath → Table Node → List String
children p [] = []
children p ((q, n) ∷ t) = push_child p q (children p t)

abbrev entries_at : Fs → Option FilePath → Option Node → Result (List String)
entries_at fs (some q) (some dir) = ok (children q fs.nodes)
entries_at fs _ none = err (io not_found)
entries_at fs _ (some _) = err (io not_a_directory)

-- The names in a directory, in the order in which they were made.
unfoldable pub read_dir : FilePath → Exec Fs (List String)
unfolding children
read_dir p fs = (entries_at fs (resolve fs true p) (stat fs p), fs)
