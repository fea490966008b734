-- ===== src/Build/Libdeps/Trees/Kept.antt =====
-- src/build/libdeps.rs: a copy of a tree only adds.
use leviso.Base.{String, List, [], ◌∷◌, ℕ, zero, suc, ◌+◌, ◌≡◌, false, not, ◌&&◌, arith}
use leviso.Exec.{Exec, ◌>>=◌, ◌>>◌, pure}
use leviso.Fs.Path.{FilePath, join}
use leviso.Fs.State.{Fs}
use leviso.Fs.Ops.{is_dir, create_dir_all, exists, is_symlink, read_link, symlink}
use leviso.Fs.Copy.{read_dir, copy}
use leviso.Fs.Kept.{Keeps, Keeps-refl}
use leviso.Fs.Kept.Steps.{
  Keeping, bind-Keeping, then-Keeping, branch-Keeps, create_dir_all-Keeping, symlink-Keeping,
  copy-Keeps, continue-Keeps,
}
use leviso.Build.{BuildContext}
use leviso.Build.Libdeps.Trees.{copy_dir_tree, copy_entries, copy_entry}

read_dir-Keeping : (p : FilePath) → Keeping (read_dir p)
unfolding read_dir
read_dir-Keeping p s = Keeps-refl s

abbrev pub one : Exec Fs ℕ
one = pure 1

module _ (ctx : BuildContext) where
  module _ (again : String → Exec Fs ℕ) (k : (r : String) → Keeping (again r))
      (rel_path : String) where
    link_entry-Keeping :
        (src dst : FilePath) → Keeping (read_link src >>= λ target. symlink target dst >> one)
    link_entry-Keeping src dst =
        bind-Keeping (read_link src) (λ target. symlink target dst >> one) Keeps-refl
          (λ target.
            then-Keeping (symlink target dst) (one) (symlink-Keeping target dst) Keeps-refl)

    copied_entry-Keeps :
        (src dst : FilePath) (s : Fs) → exists s dst ≡ false → Keeps s ((copy src dst >> one) s).1
    copied_entry-Keeps src dst s h =
        continue-Keeps s (copy src dst s) (λ _. one) (copy-Keeps s src dst h) (λ _. Keeps-refl)

    copy_entry-Keeping : (name : String) → Keeping (copy_entry ctx again rel_path name)
    copy_entry-Keeping name s =
        let src = join (join ctx.source rel_path) name in
        let dst = join (join ctx.staging rel_path) name in
        branch-Keeps (is_dir s src) s _ _ (λ _. k _ s)
          (λ _.
            branch-Keeps (is_symlink s src) s _ _
              (λ _.
                branch-Keeps (not (exists s dst) && not (is_symlink s dst)) s _ _
                  (λ _. link_entry-Keeping src dst s) (λ _. Keeps-refl s))
              (λ _.
                branch-Keeps (not (exists s dst)) s _ _
                  (λ h. copied_entry-Keeps src dst s (ground arith)) (λ _. Keeps-refl s)))

    pub copy_entries-Keeping :
        (names : List String) → Keeping (copy_entries ctx again rel_path names)
    unfolding copy_entries
    copy_entries-Keeping [] = Keeps-refl
    copy_entries-Keeping (name ∷ names) =
        bind-Keeping (copy_entry ctx again rel_path name)
          (λ n. copy_entries ctx again rel_path names >>= λ count. pure (n + count))
          (copy_entry-Keeping name)
          (λ n.
            bind-Keeping (copy_entries ctx again rel_path names) (λ count. pure (n + count))
              (copy_entries-Keeping names) (λ count. Keeps-refl))

  abbrev pub listing : String → Exec Fs (List String)
  listing rel_path =
      create_dir_all (join ctx.staging rel_path) >> read_dir (join ctx.source rel_path)

  listing-Keeping : (rel_path : String) → Keeping (listing rel_path)
  listing-Keeping rel_path =
      then-Keeping (create_dir_all (join ctx.staging rel_path))
        (read_dir (join ctx.source rel_path)) (create_dir_all-Keeping (join ctx.staging rel_path))
        (read_dir-Keeping (join ctx.source rel_path))

  -- A copy of a tree, however it ends, only adds: every directory, file and link that is on the disk
  -- is there afterwards, at its place and as it was.
  pub copy_dir_tree-Keeps :
      (fuel : ℕ) (rel_path : String) (s : Fs) → Keeps s (copy_dir_tree ctx fuel rel_path s).1
  unfolding copy_dir_tree
  copy_dir_tree-Keeps zero rel_path s = Keeps-refl s
  copy_dir_tree-Keeps (suc fuel) rel_path s =
      branch-Keeps (not (is_dir s (join ctx.source rel_path))) s _ _ (λ _. Keeps-refl s)
        (λ _.
          bind-Keeping (listing rel_path) (copy_entries ctx (copy_dir_tree ctx fuel) rel_path)
            (listing-Keeping rel_path)
            (λ names.
              copy_entries-Keeping (copy_dir_tree ctx fuel) (copy_dir_tree-Keeps fuel) rel_path
                names)
            s)
