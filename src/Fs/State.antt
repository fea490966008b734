-- ===== src/Fs/State.antt =====
-- The state of the file system.
use leviso.Base.{ℕ, String, Option, some, [], ◌∷◌}
use leviso.Text.{Text}
use leviso.Fs.Path.{FilePath}
use leviso.Fs.Table.{Table, lookup}

-- A regular file has a content, a mode and a modification time; a link has its target's text.
pub data Node : Type 0 where
  dir : Node
  file : Text → ℕ → ℕ → Node
  link : String → Node

-- The root is not in the table. The clock gives the times of writes.
pub record Fs : Type 0 where
  pub nodes : Table Node
  pub clock : ℕ

unfoldable pub node_at : Fs → FilePath → Option Node
unfolding lookup
node_at fs [] = some dir
node_at fs (x ∷ p) = lookup (x ∷ p) fs.nodes
