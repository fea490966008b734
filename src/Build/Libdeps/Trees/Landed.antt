-- ===== src/Build/Libdeps/Trees/Landed.antt =====
-- src/build/libdeps.rs: what a copy of a tree leaves in the staging tree.
use leviso.Base.{
  String, List, [], ◌∷◌, ℕ, suc, ◌+◌, ◌≡◌, false, not, ◌&&◌, true, if◌then◌else◌, Bool-cases, ◌<>◌,
  inl, ap, inr, ◌∙◌, Option, sym, some, none,
}
use leviso.Exec.{Exec, ◌>>=◌, ◌>>◌, pure}
use leviso.Fs.Path.{FilePath, join}
use leviso.Fs.State.{Fs, Node, link, file, dir}
use leviso.Fs.Ops.{
  is_dir, create_dir_all, exists, is_symlink, read_link, symlink, lexists, lstat, read_link_of,
}
use leviso.Fs.Copy.{read_dir, copy}
use leviso.Fs.Kept.{Keeps}
use leviso.Fs.Kept.Steps.{Copied, copy-Copied, symlink-made}
use leviso.Fs.Links.{exists-lexists, taken-lexists, both_free}
use mathlib.Core.Path.{subst}
use leviso.Build.Libdeps.Trees.Kept.{one, listing, copy_entries-Keeping, copy_dir_tree-Keeps}
use leviso.Build.{BuildContext}
use leviso.Build.Libdeps.Trees.{copy_dir_tree, copy_entries, copy_entry}
use leviso.Error.{ok, Result}
use leviso.Exec.Loops.{through, both}

module _ (ctx : BuildContext) where
  module _ (fuel : ℕ) (rel_path : String) where
    abbrev again : String → Exec Fs ℕ
    again = copy_dir_tree ctx fuel

    abbrev source_of : String → FilePath
    source_of name = join (join ctx.source rel_path) name

    abbrev place_of : String → FilePath
    place_of name = join (join ctx.staging rel_path) name

    -- What becomes of an entry of the directory: where something is at its place already, nothing is
    -- done; a link is made again with its target; another entry is copied as the file that it
    -- leads to; a directory is copied in the same way.
    pub data Entry (s : Fs) (name : String) (t : Fs) : Type 0 where
      taken :
          is_dir s (source_of name) ≡ false
          → lexists s (place_of name) ≡ true
          → t ≡ s
          → Entry s name t
      linked :
          (target : String)
          → exists s (place_of name) ≡ false
          → is_symlink s (place_of name) ≡ false
          → lstat s (source_of name) ≡ some (link target)
          → lstat t (place_of name) ≡ some (link target)
          → Entry s name t
      copied :
          is_symlink s (source_of name) ≡ false
          → exists s (place_of name) ≡ false
          → Copied s t (source_of name) (place_of name)
          → Entry s name t
      below :
          (count : ℕ)
          → is_dir s (source_of name) ≡ true
          → copy_dir_tree ctx fuel (rel_path <> "/" <> name) s ≡ (ok count, t)
          → Entry s name t

    -- The entries one after the other, each on the disk that the one before leaves, which keeps
    -- what was there
    pub data Entries : Fs → List String → Fs → Type 0 where
      done : (t : Fs) → Entries t [] t
      next :
          (s u t : Fs) (name : String) (names : List String)
          → Entry s name u
          → Keeps u t
          → Entries u names t
          → Entries s (name ∷ names) t

    read_link-link :
        (n : Option Node) (target : String) → read_link_of n ≡ ok target → n ≡ some (link target)
    read_link-link none target h = absurd cc
    read_link-link (some dir) target h = absurd cc
    read_link-link (some (file content mode time)) target h = absurd cc
    read_link-link (some (link other)) target h = ap (λ x. some (link x)) (text_of h)
      where
        text_of : Path (Result String) (ok other) (ok target) → other ≡ target
        text_of h = cc

    link_entry-Entry :
        (name : String) (s t : Fs) (n : ℕ)
        → is_dir s (source_of name) ≡ false
        → (if not (exists s (place_of name)) && not (is_symlink s (place_of name))
            then (read_link (source_of name) >>= λ target. symlink target (place_of name) >> one) s
            else (ok 0, s))
          ≡ (ok n, t)
        → Entry s name t
    link_entry-Entry name s t n d h =
        elim (Bool-cases (not (exists s (place_of name)) && not (is_symlink s (place_of name)))) [
          | inl f ↦
              let k = rw f at h in
              let (a, b) = both_free (exists s (place_of name)) (is_symlink s (place_of name)) f in
              let (target, u, r, l) =
                through (read_link (source_of name))
                  (λ target. symlink target (place_of name) >> one) k in
              let (_, v, m, e) = both (symlink target (place_of name)) one l in
              linked target a b (read_link-link (lstat s (source_of name)) target (ap (λ x. x.0) r))
                (subst (λ w. lstat w (place_of name) ≡ some (link target)) (ap (λ x. x.1) e)
                  (symlink-made target (place_of name) u v m))
          | inr f ↦
              let k = rw f at h in
              taken d (taken-lexists s (place_of name) f) (sym (ap (λ x. x.1) k))
        ]

    file_entry-Entry :
        (name : String) (s t : Fs) (n : ℕ)
        → is_dir s (source_of name) ≡ false
        → is_symlink s (source_of name) ≡ false
        → (if not (exists s (place_of name))
            then (copy (source_of name) (place_of name) >> one) s
            else (ok 0, s))
          ≡ (ok n, t)
        → Entry s name t
    file_entry-Entry name s t n d l h = elim (Bool-cases (exists s (place_of name))) [
      | inl f ↦
          let k = rw f at h in taken d (exists-lexists s (place_of name) f) (sym (ap (λ x. x.1) k))
      | inr f ↦
          let k = rw f at h in
          let (_, v, m, e) = both (copy (source_of name) (place_of name)) one k in
          copied l f (
            subst (λ w. Copied s w (source_of name) (place_of name)) (ap (λ x. x.1) e)
              (copy-Copied s v (place_of name) (source_of name) f m))
    ]

    copy_entry-Entry :
        (name : String) (s t : Fs) (n : ℕ)
        → copy_entry ctx again rel_path name s ≡ (ok n, t)
        → Entry s name t
    copy_entry-Entry name s t n h = elim (Bool-cases (is_dir s (source_of name))) [
      | inl d ↦ below n d (let k = rw d at h in k)
      | inr d ↦
          let k = rw d at h in
          elim (Bool-cases (is_symlink s (source_of name))) [
            | inl l ↦ link_entry-Entry name s t n d (let j = rw l at k in j)
            | inr l ↦ file_entry-Entry name s t n d l (let j = rw l at k in j)
          ]
    ]

    copy_entries-Entries :
        (names : List String) (s t : Fs) (n : ℕ)
        → copy_entries ctx again rel_path names s ≡ (ok n, t)
        → Entries s names t
    unfolding copy_entries
    copy_entries-Entries [] s t n h = subst (Entries s []) (ap (λ r. r.1) h) (done s)
    copy_entries-Entries (name ∷ names) s t n h =
        let (m, u, e, k) =
          through (copy_entry ctx again rel_path name)
            (λ m. copy_entries ctx again rel_path names >>= λ count. pure (m + count)) h in
        let (c, v, f, p) =
          through (copy_entries ctx again rel_path names) (λ count. pure (m + count)) k in
        let same = ap (λ r. r.1) p in
        let kept =
          subst (Keeps u) (ap (λ r. r.1) f ∙ same)
            (copy_entries-Keeping ctx again (copy_dir_tree-Keeps ctx fuel) rel_path names u) in
        next s u t name names (copy_entry-Entry name s u m e) kept
          (copy_entries-Entries names u t c (f ∙ ap (λ w. (ok c, w)) same))

    -- A directory is copied: its place in the staging tree is made, then its entries are read and
    -- copied.
    pub record TreeCopied (s t : Fs) : Type 0 where
      pub mid : Fs
      pub names : List String
      pub made : create_dir_all (join ctx.staging rel_path) s ≡ (ok tt, mid)
      pub listed : (read_dir (join ctx.source rel_path) mid).0 ≡ ok names
      pub entries : Entries mid names t

    from_listing :
        (s t : Fs) (n : ℕ)
        → (listing ctx rel_path >>= copy_entries ctx again rel_path) s ≡ (ok n, t)
        → TreeCopied s t
    unfolding read_dir
    from_listing s t n h =
        let (names, u, l, c) = through (listing ctx rel_path) (copy_entries ctx again rel_path) h in
        let (_, mid, m, r) =
          both (create_dir_all (join ctx.staging rel_path)) (read_dir (join ctx.source rel_path))
            l in
        record {
          mid = mid;
          names = names;
          made = m;
          listed = ap (λ x. x.0) r;
          entries =
              subst (λ w. Entries w names t) (sym (ap (λ x. x.1) r))
                (copy_entries-Entries names u t n c);
        }

    -- Where the copy of a directory ends well, its place in the staging tree is made, and each entry
    -- of the source is copied: a link with the same target, a file with its content and mode, a
    -- directory in the same way, and nothing where something is at the place already; what one
    -- entry leaves is there at the end.
    pub copy_dir_tree-TreeCopied :
        (s t : Fs) (n : ℕ)
        → is_dir s (join ctx.source rel_path) ≡ true
        → copy_dir_tree ctx (suc fuel) rel_path s ≡ (ok n, t)
        → TreeCopied s t
    unfolding copy_dir_tree
    copy_dir_tree-TreeCopied s t n d h = from_listing s t n (let k = rw d at h in k)
