-- ===== src/Fs/Ops.antt =====
-- The calls of `std::fs` and the queries of `Path` that the program makes. A path that leads
-- nowhere is reported as `not_found`, whatever `errno` it would be; there are no permissions to
-- fail by, and no device to fill.
use leviso.Base.{
  ℕ, suc, String, [], ◌∷◌, ◌++◌, Bool, true, false, Option, none, some, if◌then◌else◌, ◌&&◌, ◌==◌,
  not, ◌||◌, list_eq, string_eq,
}
use leviso.Error.{
  io, Result, ok, err, not_found, already_exists, not_a_directory, is_a_directory, busy,
  invalid_data, invalid_input, not_empty,
}
use leviso.Exec.{Exec, continue}
use leviso.Fs.Path.{FilePath, is_prefix, strip_prefix}
use leviso.Fs.Table.{insert, erase, erase_tree, Table}
use leviso.Text.{Text}
use leviso.Fs.State.{Node, dir, file, link, Fs, node_at}
use leviso.Fs.Walk.{walk, max_links}

-- `canonicalize` up to the last component, which is followed if it is a link, or not.
unfoldable pub resolve : Fs → Bool → FilePath → Option FilePath
resolve fs follow p = walk fs follow max_links [] p

abbrev pub at_place : Fs → Option FilePath → Option Node
at_place fs none = none
at_place fs (some q) = node_at fs q

-- `fs::metadata` and `fs::symlink_metadata`
unfoldable pub stat : Fs → FilePath → Option Node
stat fs p = at_place fs (resolve fs true p)

unfoldable pub lstat : Fs → FilePath → Option Node
lstat fs p = at_place fs (resolve fs false p)

abbrev pub is_some {ℓ} : {A : Type ℓ} → Option A → Bool
is_some none = false
is_some (some a) = true

abbrev pub node_is_dir : Option Node → Bool
node_is_dir (some dir) = true
node_is_dir _ = false

abbrev pub node_is_file : Option Node → Bool
node_is_file (some (file content mode time)) = true
node_is_file _ = false

abbrev pub node_is_link : Option Node → Bool
node_is_link (some (link target)) = true
node_is_link _ = false

-- `Path::exists`, `is_dir`, `is_file`, `is_symlink`, and `symlink_metadata().is_ok()`
abbrev pub exists : Fs → FilePath → Bool
exists fs p = is_some (stat fs p)

abbrev pub is_dir : Fs → FilePath → Bool
is_dir fs p = node_is_dir (stat fs p)

abbrev pub is_file : Fs → FilePath → Bool
is_file fs p = node_is_file (stat fs p)

abbrev pub is_symlink : Fs → FilePath → Bool
is_symlink fs p = node_is_link (lstat fs p)

abbrev pub lexists : Fs → FilePath → Bool
lexists fs p = is_some (lstat fs p)

-- `fs::read_link`
abbrev pub read_link_of : Option Node → Result String
read_link_of (some (link target)) = ok target
read_link_of (some dir) = err (io invalid_data)
read_link_of (some (file content mode time)) = err (io invalid_data)
read_link_of none = err (io not_found)

abbrev pub read_link : FilePath → Exec Fs String
read_link p fs = (read_link_of (lstat fs p), fs)

-- `fs::read`, and the bytes that `fs::read_to_string` checks
abbrev pub read_of : Option Node → Result Text
read_of (some (file content mode time)) = ok content
read_of (some dir) = err (io is_a_directory)
read_of (some (link target)) = err (io not_found)
read_of none = err (io not_found)

abbrev pub read : FilePath → Exec Fs Text
read p fs = (read_of (stat fs p), fs)

abbrev pub put_node : FilePath → Node → Fs → Fs
put_node q n fs = record { nodes = insert q n fs.nodes; clock = suc fs.clock }

-- 0o644, the mode of a new file under the usual umask
abbrev pub default_mode : ℕ
default_mode = 420

-- `fs::write`: the mode of a file that is there stays.
abbrev pub write_at : FilePath → Text → Option Node → Exec Fs (Unit {0})
write_at q content (some dir) fs = (err (io is_a_directory), fs)
write_at q content (some (link target)) fs = (err (io not_found), fs)
write_at q content (some (file old mode time)) fs =
    (ok tt, put_node q (file content mode fs.clock) fs)
write_at q content none fs = (ok tt, put_node q (file content default_mode fs.clock) fs)

abbrev pub write_to : Option FilePath → Text → Exec Fs (Unit {0})
write_to none content fs = (err (io not_found), fs)
write_to (some q) content fs = write_at q content (node_at fs q) fs

unfoldable pub write : FilePath → Text → Exec Fs (Unit {0})
write p content fs = write_to (resolve fs true p) content fs

-- `fs::create_dir`
abbrev pub mkdir_at : Option FilePath → Exec Fs (Unit {0})
mkdir_at none fs = (err (io not_found), fs)
mkdir_at (some q) fs =
    if is_some (node_at fs q) then (err (io already_exists), fs) else (ok tt, put_node q dir fs)

unfoldable pub create_dir : FilePath → Exec Fs (Unit {0})
create_dir p fs = mkdir_at (resolve fs false p) fs

-- `fs::create_dir_all`: each directory of the path that is not there yet, from the root down.
unfoldable pub create_dirs_below : FilePath → FilePath → Exec Fs (Unit {0})
create_dirs_below done [] fs = (ok tt, fs)
create_dirs_below done (x ∷ todo) fs =
    let p = done ++ (x ∷ []) in
    let made : Result (Unit {0}) × Fs = if is_dir fs p then (ok tt, fs) else create_dir p fs in
    continue made (λ _. create_dirs_below p todo)

unfoldable pub create_dir_all : FilePath → Exec Fs (Unit {0})
unfolding create_dirs_below create_dir
create_dir_all p = create_dirs_below [] p

-- `std::os::unix::fs::symlink(target, p)`
abbrev pub symlink_at : String → Option FilePath → Exec Fs (Unit {0})
symlink_at target none fs = (err (io not_found), fs)
symlink_at target (some q) fs =
    if is_some (node_at fs q)
    then (err (io already_exists), fs)
    else (ok tt, put_node q (link target) fs)

unfoldable pub symlink : String → FilePath → Exec Fs (Unit {0})
symlink target p fs = symlink_at target (resolve fs false p) fs

-- `fs::remove_file`
abbrev pub unlink_at : FilePath → Option Node → Exec Fs (Unit {0})
unlink_at q none fs = (err (io not_found), fs)
unlink_at q (some dir) fs = (err (io is_a_directory), fs)
unlink_at q (some (file content mode time)) fs = (ok tt, record fs { nodes = erase q fs.nodes })
unlink_at q (some (link target)) fs = (ok tt, record fs { nodes = erase q fs.nodes })

abbrev pub unlink_to : Option FilePath → Exec Fs (Unit {0})
unlink_to none fs = (err (io not_found), fs)
unlink_to (some q) fs = unlink_at q (node_at fs q) fs

unfoldable pub remove_file : FilePath → Exec Fs (Unit {0})
remove_file p fs = unlink_to (resolve fs false p) fs

-- `fs::remove_dir_all`: a link is removed itself, and is not followed; the root is
-- emptied and stays.
abbrev pub rmtree_at : FilePath → Option Node → Exec Fs (Unit {0})
rmtree_at q none fs = (err (io not_found), fs)
rmtree_at q (some dir) fs = (ok tt, record fs { nodes = erase_tree q fs.nodes })
rmtree_at q (some (file content mode time)) fs = (err (io not_a_directory), fs)
rmtree_at q (some (link target)) fs = (ok tt, record fs { nodes = erase q fs.nodes })

abbrev pub rmtree_to : Option FilePath → Exec Fs (Unit {0})
rmtree_to none fs = (err (io not_found), fs)
rmtree_to (some []) fs = (err (io busy), record fs { nodes = [] })
rmtree_to (some (x ∷ q)) fs = rmtree_at (x ∷ q) (node_at fs (x ∷ q)) fs

unfoldable pub remove_dir_all : FilePath → Exec Fs (Unit {0})
remove_dir_all p fs = rmtree_to (resolve fs false p) fs

-- `fs::metadata(p)?`
abbrev pub metadata_of : Option Node → Result Node
metadata_of none = err (io not_found)
metadata_of (some n) = ok n

abbrev pub metadata : FilePath → Exec Fs Node
metadata p fs = (metadata_of (stat fs p), fs)

-- `fs::rename`: a file or a link goes to a place that holds none of the sort of a directory, and
-- replaces what is there; a directory goes to a place where nothing is, or an empty directory, and
-- not below itself.
abbrev pub occupied : FilePath → Table Node → Bool
occupied q [] = false
occupied q ((r, n) ∷ t) = let rest = occupied q t in (is_prefix q r && not (q == r)) || rest

abbrev pub move_tree : FilePath → FilePath → Table Node → Table Node
move_tree p q [] = []
move_tree p q ((r, n) ∷ t) =
    let rest = move_tree p q t in
    elim (strip_prefix p r) [ some more ↦ (q ++ more, n) ∷ rest | none ↦ (r, n) ∷ rest ]

abbrev pub moved : FilePath → FilePath → Exec Fs (Unit {0})
moved p q fs = (ok tt, record fs { nodes = move_tree p q (erase q fs.nodes) })

abbrev pub rename_onto : FilePath → FilePath → Node → Option Node → Exec Fs (Unit {0})
rename_onto p q dir (some dir) fs =
    if is_prefix p q
    then if p == q then (ok tt, fs) else (err (io invalid_input), fs)
    else if occupied q fs.nodes
    then (err (io not_empty), fs)
    else moved p q fs
rename_onto p q dir (some (file content mode time)) fs = (err (io not_a_directory), fs)
rename_onto p q dir (some (link target)) fs = (err (io not_a_directory), fs)
rename_onto p q dir none fs = if is_prefix p q then (err (io invalid_input), fs) else moved p q fs
rename_onto p q n (some dir) fs = (err (io is_a_directory), fs)
rename_onto p q n _ fs = if p == q then (ok tt, fs) else moved p q fs

abbrev pub rename_node : Option FilePath → Option FilePath → Option Node → Exec Fs (Unit {0})
rename_node (some p) (some q) (some n) fs = rename_onto p q n (node_at fs q) fs
rename_node _ _ _ fs = (err (io not_found), fs)

unfoldable pub rename : FilePath → FilePath → Exec Fs (Unit {0})
rename from to fs = rename_node (resolve fs false from) (resolve fs false to) (lstat fs from) fs
