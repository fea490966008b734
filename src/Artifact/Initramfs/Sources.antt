-- ===== src/Artifact/Initramfs/Sources.antt =====
-- src/artifact/initramfs.rs: where the kernel modules of the live initramfs come from.
use leviso.Base.{String, Option, ◌≡◌, true, false, Bool-cases, inl, inr, clash, sym, ◌∙◌}
use leviso.Fs.Path.{FilePath}
use leviso.Fs.State.{Fs}
use leviso.Fs.Ops.{exists}
use leviso.Artifact.Kit.{Kit}
use leviso.Artifact.Initramfs.{
  custom_modules_path, rocky_modules_path, vmlinuz_path, find_kernel_modules_dir,
}
use leviso.Error.{Result, ok, Error, err}

module _ (kit : Kit) (env_var : String → Option String) (base_dir : FilePath) where
  -- The directory is there, and modules of a kernel of its own come with that kernel.
  pub data IsSource (fs : Fs) : FilePath → Type 0 where
    custom :
        exists fs (custom_modules_path kit env_var base_dir) ≡ true
        → exists fs (vmlinuz_path kit env_var base_dir) ≡ true
        → IsSource fs (custom_modules_path kit env_var base_dir)
    rocky :
        exists fs (custom_modules_path kit env_var base_dir) ≡ false
        → exists fs (rocky_modules_path kit env_var base_dir) ≡ true
        → IsSource fs (rocky_modules_path kit env_var base_dir)

  pub data SourceOutcome (fs : Fs) : Result FilePath × Fs → Type 0 where
    chosen : (dir : FilePath) → IsSource fs dir → SourceOutcome fs (ok dir, fs)
    refused : (e : Error) → ((dir : FilePath) → ¬ IsSource fs dir) → SourceOutcome fs (err e, fs)

  no_kernel :
      (fs : Fs) (dir : FilePath)
      → exists fs (custom_modules_path kit env_var base_dir) ≡ true
      → exists fs (vmlinuz_path kit env_var base_dir) ≡ false
      → ¬ IsSource fs dir
  no_kernel fs dir c v (custom c' v') = clash (sym v' ∙ v)
  no_kernel fs dir c v (rocky c' r') = clash (sym c ∙ c')

  no_modules :
      (fs : Fs) (dir : FilePath)
      → exists fs (custom_modules_path kit env_var base_dir) ≡ false
      → exists fs (rocky_modules_path kit env_var base_dir) ≡ false
      → ¬ IsSource fs dir
  no_modules fs dir c r (custom c' v') = clash (sym c' ∙ c)
  no_modules fs dir c r (rocky c' r') = clash (sym r' ∙ r)

  -- The live initramfs takes the modules of the staging tree if they are there, and then only with
  -- the kernel of the staging tree; else those of Rocky Linux; and it fails, without a change of
  -- the disk, exactly if there is no such directory.
  pub find_kernel_modules_dir-SourceOutcome :
      (fs : Fs) → SourceOutcome fs (find_kernel_modules_dir kit env_var base_dir fs)
  unfolding find_kernel_modules_dir
  find_kernel_modules_dir-SourceOutcome fs =
      elim (Bool-cases (exists fs (custom_modules_path kit env_var base_dir))) [
        | inl c ↦ elim (Bool-cases (exists fs (vmlinuz_path kit env_var base_dir))) [
          | inl v ↦ rw (c, v) (chosen _ (custom c v))
          | inr v ↦ rw (c, v) (refused _ (λ dir. no_kernel fs dir c v))
        ]
        | inr c ↦ elim (Bool-cases (exists fs (rocky_modules_path kit env_var base_dir))) [
          | inl r ↦ rw (c, r) (chosen _ (rocky c r))
          | inr r ↦ rw (c, r) (refused _ (λ dir. no_modules fs dir c r))
        ]
      ]
