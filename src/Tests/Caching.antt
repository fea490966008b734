-- ===== src/Tests/Caching.antt =====
-- Rebuild decisions on a small project, with a cache that keeps the contents themselves.
use leviso.Base.{
  List, [], ◌∷◌, ◌++◌, ◌≡◌, refl, none, some, Option, Bool, true, false, not, ◌||◌, ◌↔◌, ◌==◌,
  nat_eq, list_eq, ap, ℕ, ltb, arith, All,
}
use leviso.Base.{list_same_iff}
use leviso.Fs.Path.{FilePath}
use leviso.Fs.State.{Fs, Node, file, dir, node_at}
use leviso.Fs.Ops.{exists, stat, resolve, write}
use leviso.Fs.Walk.{walk}
use leviso.Fs.Table.{insert, lookup}
use leviso.Fs.ReadBack.{write-Holds}
use leviso.Text.{Text}
use leviso.Rebuild.{
  Cache, Names, initramfs_artifact, initramfs_needs_rebuild, needs_rebuild, iso_needs_rebuild,
  cache_hash,
}
use leviso.Rebuild.Fresh.{Lawful, UpToDate, cache_hash-UpToDate, needs_rebuild-UpToDate}
use leviso.Rebuild.Iso.{IsCurrent, iso_needs_rebuild-IsCurrent}
use leviso.Commands.Show.{summary_line, artifact_lines}
use leviso.Commands.Show.Status.{nothing_to_do, IsUpToDate, summary_line-artifact_lines}

abbrev content_of : Option Node → Option Text
content_of (some (file content mode time)) = some content
content_of _ = none

abbrev joined : Option Text → Option Text → Option Text
joined (some x) (some y) = some (x ++ y)
joined _ _ = none

abbrev contents : Fs → List FilePath → Option Text
contents fs [] = some []
contents fs (p ∷ ps) = joined (content_of (stat fs p)) (contents fs ps)

abbrev is_same : Option Text → Text → Bool
is_same none h = false
is_same (some k) h = k == h

abbrev time_of : Option Node → ℕ
time_of (some (file content mode time)) = time
time_of _ = 0

abbrev pub content_cache : Cache
content_cache = record {
  hash_files = contents;
  needs_rebuild = λ fs hash hash_file output.
      not (exists fs output) || not (is_same (content_of (stat fs hash_file)) hash);
  write_cached_hash = write;
  is_newer = λ fs p q. ltb (time_of (stat fs q)) (time_of (stat fs p));
}

is_same-some : (k : Option Text) (h : Text) → (is_same k h ≡ true) ↔ (k ≡ some h)
is_same-some none h = (λ e. cc, λ e. cc)
is_same-some (some k) h = (λ e. ap some ((list_same_iff k h).0 e), λ e. (list_same_iff k h).1 cc)

pub content_laws : Lawful content_cache
content_laws = record {
  stored = λ fs p. content_of (stat fs p);
  up_to_date = λ fs hash hash_file output there.
      ground (arith, there, is_same-some (content_of (stat fs hash_file)) hash);
  stores = λ fs t hash hash_file w. ap content_of (write-Holds fs t hash_file hash w).at;
}

abbrev pub names : Names
names = record {
  initramfs_installed_output = "initramfs-installed.img";
  initramfs_live_output = "initramfs-live.cpio.gz";
  iso_filename = "levitateos.iso";
  rootfs_name = "filesystem.erofs";
  qcow2_image_filename = "levitateos.qcow2";
  output_dir = λ base. base ++ ("output" ∷ []);
}

abbrev base : FilePath
base = "base" ∷ []

abbrev project : Fs
project = record {
  nodes =
      ("base" ∷ [], dir)
      ∷ ("base" ∷ "output" ∷ [], dir)
      ∷ ("base" ∷ "output" ∷ "initramfs-live.cpio.gz" ∷ [], file (1 ∷ []) 420 5)
      ∷ ("base" ∷ "profile" ∷ [], dir)
      ∷ ("base" ∷ "profile" ∷ "init_tiny.template" ∷ [], file (2 ∷ []) 420 1)
      ∷ ("base" ∷ "downloads" ∷ [], dir)
      ∷ ("base" ∷ "downloads" ∷ "busybox-static" ∷ [], file (3 ∷ []) 493 2)
      ∷ [];
  clock = 9;
}

abbrev written : Fs
written = (write (initramfs_artifact names base).hash_file (2 ∷ 3 ∷ []) project).1

-- Nothing is cached at first.
first_build : initramfs_needs_rebuild content_cache names base project ≡ true
unfolding initramfs_needs_rebuild stat resolve walk node_at lookup
first_build = refl

cache_hash-UpToDate_example :
    needs_rebuild content_cache
      (initramfs_artifact names base)
      (cache_hash content_cache (initramfs_artifact names base) project)
    ≡ false
unfolding initramfs_artifact stat resolve walk node_at lookup insert write
cache_hash-UpToDate_example =
    cache_hash-UpToDate content_cache content_laws (initramfs_artifact names base) project written
      (2 ∷ 3 ∷ []) refl refl refl refl

needs_rebuild-UpToDate_example :
    (needs_rebuild content_cache (initramfs_artifact names base) written ≡ false)
    ↔ UpToDate content_cache content_laws (initramfs_artifact names base) written
needs_rebuild-UpToDate_example =
    needs_rebuild-UpToDate content_cache content_laws (initramfs_artifact names base) written

unbuilt_image :
    (iso_needs_rebuild content_cache names base project ≡ false)
    ↔ IsCurrent content_cache names base project
unbuilt_image = iso_needs_rebuild-IsCurrent content_cache names base project

summary_line-artifact_lines_example :
    (summary_line content_cache names base project ≡ nothing_to_do)
    ↔ All IsUpToDate (artifact_lines content_cache names base project)
summary_line-artifact_lines_example = summary_line-artifact_lines content_cache names base project
