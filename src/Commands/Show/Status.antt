-- ===== src/Commands/Show/Status.antt =====
-- src/commands/show.rs: the summary of `show status` fits its lines.
use leviso.Base.{String, Bool, All, ◌≡◌, ◌↔◌, true, false, arith, ap, refl, string_eq, ◌==◌}
use leviso.Fs.Path.{FilePath}
use leviso.Fs.State.{Fs}
use leviso.Rebuild.{
  Cache, Names, kernel_needs_compile, kernel_needs_install, kernel_artifact, rootfs_needs_rebuild,
  initramfs_needs_rebuild, install_initramfs_needs_rebuild, iso_needs_rebuild, needs_rebuild,
  Artifact, rootfs_artifact, initramfs_artifact, install_initramfs_artifact,
}
use leviso.Commands.Show.{Line, artifact_lines, any_work, summary_line, verdict, at, summary_of}
use leviso.Fs.Ops.{exists}

abbrev pub up_to_date : String
up_to_date = "OK (up to date)"

abbrev pub nothing_to_do : Line
nothing_to_do = ("All artifacts up to date. Nothing to rebuild.", "")

abbrev pub IsUpToDate : Line → Type 0
IsUpToDate line = line.1 ≡ up_to_date

-- An artifact that is there and is not to be made again.
IsDone : Bool → Bool → Type 0
IsDone there needed = (there ≡ true) × (needed ≡ false)

verdict-IsDone :
    (missing stale : String)
    → ¬ missing ≡ up_to_date
    → ¬ stale ≡ up_to_date
    → (there needed : Bool)
    → (verdict missing stale there needed ≡ up_to_date) ↔ IsDone there needed
unfolding IsDone
verdict-IsDone missing stale m s there needed = ground arith

built :
    (there needed : Bool)
    → (verdict "MISSING → will build" "STALE → will rebuild" there needed ≡ up_to_date)
      ↔ IsDone there needed
built = verdict-IsDone _ _ (λ h. absurd cc) (λ h. absurd cc)

installed :
    (there needed : Bool)
    → (verdict "MISSING → will install" "STALE → will reinstall" there needed ≡ up_to_date)
      ↔ IsDone there needed
installed = verdict-IsDone _ _ (λ h. absurd cc) (λ h. absurd cc)

quiet : (work : Bool) → summary_of work ≡ nothing_to_do → work ≡ false
quiet true h = absurd (let k = ap (λ line. line.0 == nothing_to_do.0) h in cc)
quiet false h = refl

module _ (cache : Cache) (names : Names) (base_dir : FilePath) where
  summary_line-quiet :
      (fs : Fs)
      → (summary_line cache names base_dir fs ≡ nothing_to_do)
        ↔ (any_work cache names base_dir fs ≡ false)
  unfolding summary_line
  summary_line-quiet fs = (λ h. quiet _ h, λ h. ap summary_of h)

  needs_rebuild-exists :
      (a : Artifact) (fs : Fs) → needs_rebuild cache a fs ≡ false → exists fs a.output ≡ true
  unfolding needs_rebuild
  needs_rebuild-exists a fs h = ground arith

  -- What is not to be made again is there.
  record AllDone (fs : Fs) : Type 0 where
    compiled :
        IsDone
          (exists fs (at cache names base_dir "kernel-build/arch/x86/boot/bzImage"))
          (kernel_needs_compile cache names base_dir fs)
    kernel :
        IsDone
          (exists fs (at cache names base_dir "staging/boot/vmlinuz"))
          (kernel_needs_install cache names base_dir fs)
    rootfs :
        IsDone
          (exists fs (at cache names base_dir names.rootfs_name))
          (rootfs_needs_rebuild cache names base_dir fs)
    initramfs :
        IsDone
          (exists fs (at cache names base_dir names.initramfs_live_output))
          (initramfs_needs_rebuild cache names base_dir fs)
    install :
        IsDone
          (exists fs (at cache names base_dir names.initramfs_installed_output))
          (install_initramfs_needs_rebuild cache names base_dir fs)
    iso :
        IsDone
          (exists fs (at cache names base_dir names.iso_filename))
          (iso_needs_rebuild cache names base_dir fs)

  kernel_needs_compile-done :
      (fs : Fs)
      → kernel_needs_compile cache names base_dir fs ≡ false
      → IsDone
          (exists fs (at cache names base_dir "kernel-build/arch/x86/boot/bzImage"))
          (kernel_needs_compile cache names base_dir fs)
  unfolding kernel_needs_compile kernel_artifact IsDone
  kernel_needs_compile-done fs h =
      (needs_rebuild-exists (kernel_artifact names base_dir fs) fs h, h)

  rootfs_needs_rebuild-done :
      (fs : Fs)
      → rootfs_needs_rebuild cache names base_dir fs ≡ false
      → IsDone
          (exists fs (at cache names base_dir names.rootfs_name))
          (rootfs_needs_rebuild cache names base_dir fs)
  unfolding rootfs_needs_rebuild rootfs_artifact IsDone
  rootfs_needs_rebuild-done fs h = (needs_rebuild-exists (rootfs_artifact names base_dir) fs h, h)

  initramfs_needs_rebuild-done :
      (fs : Fs)
      → initramfs_needs_rebuild cache names base_dir fs ≡ false
      → IsDone
          (exists fs (at cache names base_dir names.initramfs_live_output))
          (initramfs_needs_rebuild cache names base_dir fs)
  unfolding initramfs_needs_rebuild initramfs_artifact IsDone
  initramfs_needs_rebuild-done fs h =
      (needs_rebuild-exists (initramfs_artifact names base_dir) fs h, h)

  install_initramfs_needs_rebuild-done :
      (fs : Fs)
      → install_initramfs_needs_rebuild cache names base_dir fs ≡ false
      → IsDone
          (exists fs (at cache names base_dir names.initramfs_installed_output))
          (install_initramfs_needs_rebuild cache names base_dir fs)
  unfolding install_initramfs_needs_rebuild install_initramfs_artifact IsDone
  install_initramfs_needs_rebuild-done fs h =
      (needs_rebuild-exists (install_initramfs_artifact names base_dir) fs h, h)

  iso_there :
      (fs : Fs)
      → iso_needs_rebuild cache names base_dir fs ≡ false
      → exists fs (at cache names base_dir names.iso_filename) ≡ true
  unfolding iso_needs_rebuild
  iso_there fs h = ground arith

  kernel_needs_install-done :
      (fs : Fs)
      → exists fs (at cache names base_dir "kernel-build/arch/x86/boot/bzImage") ≡ true
      → kernel_needs_install cache names base_dir fs ≡ false
      → IsDone
          (exists fs (at cache names base_dir "staging/boot/vmlinuz"))
          (kernel_needs_install cache names base_dir fs)
  unfolding kernel_needs_install IsDone
  kernel_needs_install-done fs t h = ground arith

  iso_needs_rebuild-done :
      (fs : Fs)
      → iso_needs_rebuild cache names base_dir fs ≡ false
      → IsDone
          (exists fs (at cache names base_dir names.iso_filename))
          (iso_needs_rebuild cache names base_dir fs)
  unfolding iso_needs_rebuild IsDone
  iso_needs_rebuild-done fs h = (iso_there fs h, h)

  any_work-clean :
      (fs : Fs)
      → (any_work cache names base_dir fs ≡ false) ↔ (
          (kernel_needs_compile cache names base_dir fs ≡ false)
          × (kernel_needs_install cache names base_dir fs ≡ false)
          × (rootfs_needs_rebuild cache names base_dir fs ≡ false)
          × (initramfs_needs_rebuild cache names base_dir fs ≡ false)
          × (install_initramfs_needs_rebuild cache names base_dir fs ≡ false)
          × (iso_needs_rebuild cache names base_dir fs ≡ false))
  unfolding any_work
  any_work-clean fs = ground arith

  any_work-AllDone : (fs : Fs) → any_work cache names base_dir fs ≡ false → AllDone fs
  unfolding IsDone
  any_work-AllDone fs h =
      let (c, k, r, i, n, o) = (any_work-clean fs).0 h in
      let compiled = kernel_needs_compile-done fs c in
      record {
        compiled = compiled;
        kernel = kernel_needs_install-done fs compiled.0 k;
        rootfs = rootfs_needs_rebuild-done fs r;
        initramfs = initramfs_needs_rebuild-done fs i;
        install = install_initramfs_needs_rebuild-done fs n;
        iso = iso_needs_rebuild-done fs o;
      }

  AllDone-any_work : (fs : Fs) → AllDone fs → any_work cache names base_dir fs ≡ false
  unfolding IsDone
  AllDone-any_work fs d =
      (any_work-clean fs).1
        (d.compiled.1, d.kernel.1, d.rootfs.1, d.initramfs.1, d.install.1, d.iso.1)

  artifact_lines-AllDone :
      (fs : Fs) → All IsUpToDate (artifact_lines cache names base_dir fs) → AllDone fs
  unfolding artifact_lines
  artifact_lines-AllDone fs (c, (k, (r, (i, (n, (o, _)))))) = record {
    compiled = (built _ _).0 c;
    kernel = (installed _ _).0 k;
    rootfs = (built _ _).0 r;
    initramfs = (built _ _).0 i;
    install = (built _ _).0 n;
    iso = (built _ _).0 o;
  }

  AllDone-artifact_lines :
      (fs : Fs) → AllDone fs → All IsUpToDate (artifact_lines cache names base_dir fs)
  unfolding artifact_lines
  AllDone-artifact_lines fs d = (
    (built _ _).1 d.compiled,
    (
      (installed _ _).1 d.kernel,
      (
        (built _ _).1 d.rootfs,
        ((built _ _).1 d.initramfs, ((built _ _).1 d.install, ((built _ _).1 d.iso, tt))),
      ),
    ),
  )

  -- The status says that there is nothing to rebuild exactly if the line of every artifact says
  -- that it is up to date.
  pub summary_line-artifact_lines :
      (fs : Fs)
      → (summary_line cache names base_dir fs ≡ nothing_to_do)
        ↔ All IsUpToDate (artifact_lines cache names base_dir fs)
  summary_line-artifact_lines fs =
      let (said, says) = summary_line-quiet fs in
      (
        (λ h. AllDone-artifact_lines fs (any_work-AllDone fs (said h))),
        (λ h. says (AllDone-any_work fs (artifact_lines-AllDone fs h))),
      )
