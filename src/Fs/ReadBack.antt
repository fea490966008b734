-- ===== src/Fs/ReadBack.antt =====
-- What is read after a write.
use leviso.Base.{
  ℕ, zero, suc, String, ◌≡◌, refl, [], ◌∷◌, ◌++◌, true, Option, none, some, ◌==◌, string_eq,
  list_eq, list_same_iff, arith, if◌then◌else◌, ap,
}
use leviso.Error.{ok}
use leviso.Fs.Path.{FilePath, components, drop_last}
use leviso.Fs.Table.{lookup-insert}
use leviso.Text.{Text}
use leviso.Fs.State.{Fs, Node, dir, file, link, node_at}
use leviso.Fs.Walk.{walk, max_links, start_of}
use leviso.Fs.Ops.{resolve, stat, put_node, default_mode, write_at, write_to, write}
use mathlib.Core.Path.{subst}

pub node_at-put_node :
    (s : Fs) (x : String) (q r : FilePath) (n : Node)
    → node_at (put_node (x ∷ q) n s) r ≡ (if (x ∷ q) == r then some n else node_at s r)
unfolding node_at
node_at-put_node s x q [] n = refl
node_at-put_node s x q (y ∷ r) n = lookup-insert (x ∷ q) (y ∷ r) n s.nodes

abbrev target_of : Option Node → String
target_of (some (link target)) = target
target_of _ = ""

-- A place that holds a file, or nothing.
abbrev IsPlace : Option Node → Type 0
IsPlace none = Unit
IsPlace (some dir) = ⊥
IsPlace (some (file content mode time)) = Unit
IsPlace (some (link target)) = ⊥

module _ (s : Fs) (x : String) (q : FilePath) (content : Text) (mode time : ℕ) where
  abbrev after : Fs
  after = put_node (x ∷ q) (file content mode time) s

  -- The path that led to the place leads to it still.
  walk-put_node :
      (links : ℕ) (done todo : FilePath)
      → IsPlace (node_at s (x ∷ q))
      → walk s true links done todo ≡ some (x ∷ q)
      → walk after true links done todo ≡ some (x ∷ q)
  unfolding walk
  walk-put_node links done [] f e = e
  walk-put_node zero done (y ∷ todo) f e =
      let r = done ++ (y ∷ []) in
      ground (
        arith,
        node_at-put_node s x q r (file content mode time),
        list_same_iff (x ∷ q) r,
        walk-put_node zero (drop_last done) todo f,
        walk-put_node zero r todo f,
      )
  walk-put_node (suc links) done (y ∷ todo) f e =
      let r = done ++ (y ∷ []) in
      let target = target_of (node_at s r) in
      ground (
        arith,
        node_at-put_node s x q r (file content mode time),
        list_same_iff (x ∷ q) r,
        walk-put_node (suc links) (drop_last done) todo f,
        walk-put_node (suc links) r todo f,
        walk-put_node links (start_of done target) (components target ++ todo) f,
      )

-- The file that stands at a path, with its content.
pub record Holds (s : Fs) (p : FilePath) (content : Text) : Type 0 where
  pub mode : ℕ
  pub time : ℕ
  pub at : stat s p ≡ some (file content mode time)

pub stat-put_node :
    (s : Fs) (p : FilePath) (x : String) (q : FilePath) (content : Text) (mode time : ℕ)
    → IsPlace (node_at s (x ∷ q))
    → resolve s true p ≡ some (x ∷ q)
    → stat (put_node (x ∷ q) (file content mode time) s) p ≡ some (file content mode time)
unfolding stat resolve
stat-put_node s p x q content mode time f e =
    rw (walk-put_node s x q content mode time max_links [] p f e)
      (rw node_at-put_node (rw ((list_same_iff (x ∷ q) (x ∷ q)).1 refl)))

module _ (s t : Fs) (p : FilePath) (content : Text) where
  put-Holds :
      (x : String) (q : FilePath) (mode : ℕ)
      → IsPlace (node_at s (x ∷ q))
      → resolve s true p ≡ some (x ∷ q)
      → put_node (x ∷ q) (file content mode s.clock) s ≡ t
      → Holds t p content
  put-Holds x q mode f e h =
      subst (λ u. Holds u p content) h
        (record {
          mode = mode;
          time = s.clock;
          at = stat-put_node s p x q content mode s.clock f e;
        })

  write_at-Holds :
      (x : String) (q : FilePath) (n : Option Node)
      → node_at s (x ∷ q) ≡ n
      → resolve s true p ≡ some (x ∷ q)
      → write_at (x ∷ q) content n s ≡ (ok tt, t)
      → Holds t p content
  write_at-Holds x q none n e h = put-Holds x q default_mode (rw n tt) e (ap (λ r. r.1) h)
  write_at-Holds x q (some dir) n e h = absurd (cc)
  write_at-Holds x q (some (link target)) n e h = absurd (cc)
  write_at-Holds x q (some (file old mode time)) n e h =
      put-Holds x q mode (rw n tt) e (ap (λ r. r.1) h)

  write_to-Holds :
      (o : Option FilePath)
      → resolve s true p ≡ o
      → write_to o content s ≡ (ok tt, t)
      → Holds t p content
  unfolding node_at
  write_to-Holds none e h = absurd (cc)
  write_to-Holds (some []) e h = absurd (cc)
  write_to-Holds (some (x ∷ q)) e h = write_at-Holds x q (node_at s (x ∷ q)) refl e h

  -- After a write that succeeds the path leads to a file with the content written.
  pub write-Holds : write p content s ≡ (ok tt, t) → Holds t p content
  unfolding write
  write-Holds h = write_to-Holds (resolve s true p) refl h
