-- ===== src/Clean/Gone.antt =====
-- src/clean.rs: what is there after a clean.
use leviso.Base.{
  ◌≡◌, refl, List, [], ◌∷◌, ◌++◌, false, Bool-cases, inl, inr, All, All-append, append-nil, some,
  arith,
}
use leviso.Error.{Result, ok, err}
use leviso.Exec.{Exec, continue, for_each}
use leviso.Fs.Path.{FilePath, is_prefix}
use leviso.Fs.State.{Fs, node_at}
use leviso.Fs.Ops.{exists, resolve}
use leviso.Fs.Removal.{
  Within, Removes, Within-refl, Within-trans, exists-Within, remove_file-Removes,
  remove_dir_all-Removes, remove_dir_all-keeps,
}
use leviso.Clean.{
  CleanTarget, outputs_removals, kernel_removals, iso_removals, rootfs_removals, downloads_removals,
  clean_outputs, clean_kernel, clean_iso, clean_rootfs, clean_downloads, clean_all, cmd_clean, Env,
  Removal, of_file, of_dir, target, remove, remove_if_exists,
}

remove-Removes : (r : Removal) (s : Fs) → Removes (target r) s (remove r s)
remove-Removes (of_file p) s = remove_file-Removes p s
remove-Removes (of_dir p) s = remove_dir_all-Removes p s

remove_if_exists-Removes : (r : Removal) (s : Fs) → Removes (target r) s (remove_if_exists r s)
unfolding remove_if_exists
remove_if_exists-Removes r s = elim (Bool-cases (exists s (target r))) [
  | inl there ↦ rw there (remove-Removes r s)
  | inr missing ↦ rw missing (record { within = Within-refl s; gone = λ h. missing })
]

abbrev pub AllGone : Fs → List Removal → Type 0
AllGone s = All (λ r. exists s (target r) ≡ false)

AllGone-Within : (s t : Fs) (rs : List Removal) → Within t s → AllGone s rs → AllGone t rs
AllGone-Within s t [] w h = tt
AllGone-Within s t (r ∷ rs) w h = (exists-Within s t w (target r) h.0, AllGone-Within s t rs w h.1)

-- What a run of removals leaves.
pub record Cleans (rs : List Removal) (s : Fs) (out : Result (Unit {0}) × Fs) : Type 0 where
  pub within : Within out.1 s
  pub gone : out.0 ≡ ok tt → AllGone out.1 rs

Cleans-cons :
    (r : Removal) (rs : List Removal) (s : Fs) (res : Result (Unit {0})) (t : Fs)
    → Removes (target r) s (res, t)
    → Cleans rs t (for_each remove_if_exists rs t)
    → Cleans (r ∷ rs) s (continue (res, t) (λ _. for_each remove_if_exists rs))
Cleans-cons r rs s (err e) t h k = record { within = h.within; gone = λ q. cc }
Cleans-cons r rs s (ok tt) t h k = record {
  within = Within-trans k.within h.within;
  gone = λ q. (exists-Within t _ k.within (target r) (h.gone refl), k.gone q);
}

for_each-Cleans : (rs : List Removal) (s : Fs) → Cleans rs s (for_each remove_if_exists rs s)
for_each-Cleans [] s = record { within = Within-refl s; gone = λ q. tt }
for_each-Cleans (r ∷ rs) s =
    let (res, t) = remove_if_exists r s in
    Cleans-cons r rs s res t (remove_if_exists-Removes r s) (for_each-Cleans rs t)

-- The outputs that a target removes.
abbrev pub removals_of : Env → FilePath → CleanTarget → List Removal
removals_of env base_dir CleanTarget.outputs = outputs_removals env base_dir
removals_of env base_dir CleanTarget.kernel = kernel_removals env base_dir
removals_of env base_dir CleanTarget.iso = iso_removals env base_dir
removals_of env base_dir CleanTarget.rootfs = rootfs_removals env base_dir
removals_of env base_dir CleanTarget.downloads = downloads_removals env base_dir
removals_of env base_dir CleanTarget.cache = []
removals_of env base_dir CleanTarget.all =
    downloads_removals env base_dir ++ outputs_removals env base_dir

Cleans-seq :
    (rs more : List Removal) (s : Fs) (m : Exec Fs (Unit {0})) (res : Result (Unit {0})) (t : Fs)
    → Cleans rs s (res, t)
    → Cleans more t (m t)
    → Cleans (rs ++ more) s (continue (res, t) (λ _. m))
Cleans-seq rs more s m (err e) t h k = record { within = h.within; gone = λ q. cc }
Cleans-seq rs more s m (ok tt) t h k = record {
  within = Within-trans k.within h.within;
  gone = λ q. All-append _ rs more (AllGone-Within t _ rs k.within (h.gone refl)) (k.gone q);
}

clean_all-Cleans :
    (env : Env) (base_dir : FilePath) (s : Fs)
    → Cleans (removals_of env base_dir CleanTarget.all) s (clean_all env base_dir s)
unfolding clean_all clean_downloads clean_outputs
clean_all-Cleans env base_dir s =
    let rs = downloads_removals env base_dir in
    let (res, t) = for_each remove_if_exists rs s in
    Cleans-seq rs (outputs_removals env base_dir) s _ res t (for_each-Cleans rs s)
      (for_each-Cleans _ t)

-- `cmd_clean`, for each target and in every state, whether it succeeds or fails: no file,
-- directory or link is added or changed; and if it succeeds, each output of the target leads
-- nowhere, links followed (for `All`: the downloads and the output directory). It is assumed
-- that the clearing of the tool cache adds and changes nothing.
pub cmd_clean-Cleans :
    (env : Env) (base_dir : FilePath) (t : CleanTarget) (s : Fs)
    → ((u : Fs) → Within (env.clear_cache u).1 u)
    → Cleans (removals_of env base_dir t) s (cmd_clean env base_dir t s)
unfolding cmd_clean clean_outputs clean_kernel clean_iso clean_rootfs clean_downloads
cmd_clean-Cleans env base_dir CleanTarget.outputs s h = for_each-Cleans _ s
cmd_clean-Cleans env base_dir CleanTarget.kernel s h = for_each-Cleans _ s
cmd_clean-Cleans env base_dir CleanTarget.iso s h = for_each-Cleans _ s
cmd_clean-Cleans env base_dir CleanTarget.rootfs s h = for_each-Cleans _ s
cmd_clean-Cleans env base_dir CleanTarget.downloads s h = for_each-Cleans _ s
cmd_clean-Cleans env base_dir CleanTarget.cache s h = record { within = h s; gone = λ q. tt }
cmd_clean-Cleans env base_dir CleanTarget.all s h =
    let rs = removals_of env base_dir CleanTarget.all in
    let (res, t) = clean_all env base_dir s in
    rw append-nil at (
      Cleans-seq rs [] s env.clear_cache res t (clean_all-Cleans env base_dir s)
        (record { within = h t; gone = λ q. tt }))

-- `clean_outputs` keeps what does not lie in the output directory, the downloads among it:
-- every node that is not at or below the place of that directory is as it was.
pub clean_outputs-keeps :
    (env : Env) (base_dir d q : FilePath) (s : Fs)
    → resolve s false (env.output_dir base_dir) ≡ some d
    → is_prefix d q ≡ false
    → node_at (clean_outputs env base_dir s).1 q ≡ node_at s q
unfolding clean_outputs remove_if_exists
clean_outputs-keeps env base_dir d q s e o =
    ground (arith, remove_dir_all-keeps (env.output_dir base_dir) d q s e o)
