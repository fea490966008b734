-- ===== src/Fs/Walk.antt =====
-- Path resolution as in path_resolution(7): links are followed, forty at most.
use leviso.Base.{
  ℕ, zero, suc, String, [], ◌∷◌, ◌++◌, Bool, true, false, Option, none, some, is_empty, ◌==◌,
  string_eq, if◌then◌else◌,
}
use leviso.Fs.Path.{FilePath, components, is_absolute, drop_last}
use leviso.Fs.State.{Fs, Node, dir, file, link, node_at}

abbrev pub max_links : ℕ
max_links = 40

-- What one component leads to. `last` is set at the last component, `follow` where a link there
-- is followed too.
pub data Hop : Type 0 where
  stop : Hop
  arrive : Hop
  enter : Hop
  jump : String → Hop

abbrev pub hop : Bool → Bool → Option Node → Hop
hop follow true none = arrive
hop follow false none = stop
hop follow last (some dir) = enter
hop follow true (some (file content mode time)) = arrive
hop follow false (some (file content mode time)) = stop
hop true true (some (link target)) = jump target
hop false true (some (link target)) = arrive
hop follow false (some (link target)) = jump target

-- Where the target of a link in `done` starts.
abbrev pub start_of : FilePath → String → FilePath
start_of done target = if is_absolute target then [] else done

-- The place to which `todo` leads from `done`; the last component need not be there.
unfoldable pub walk : Fs → Bool → ℕ → FilePath → FilePath → Option FilePath
walk fs follow links done [] = some done
walk fs follow zero done (x ∷ todo) =
    let up = walk fs follow zero (drop_last done) todo in
    let down = walk fs follow zero (done ++ (x ∷ [])) todo in
    if x == ".." then up else elim (hop follow (is_empty todo) (node_at fs (done ++ (x ∷ [])))) [
      | stop ↦ none
      | arrive ↦ some (done ++ (x ∷ []))
      | enter ↦ down
      | jump target ↦ none
    ]
walk fs follow (suc links) done (x ∷ todo) =
    let up = walk fs follow (suc links) (drop_last done) todo in
    let down = walk fs follow (suc links) (done ++ (x ∷ [])) todo in
    if x == ".." then up else elim (hop follow (is_empty todo) (node_at fs (done ++ (x ∷ [])))) [
      | stop ↦ none
      | arrive ↦ some (done ++ (x ∷ []))
      | enter ↦ down
      | jump target ↦ walk fs follow links (start_of done target) (components target ++ todo)
    ]
