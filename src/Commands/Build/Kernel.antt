-- ===== src/Commands/Build/Kernel.antt =====
-- src/commands/build.rs: a build uses a kernel only if it is the one of the current inputs.
use leviso.Base.{Bool, false, ◌≡◌, arith}
use leviso.Error.{ok}
use leviso.Fs.Path.{FilePath}
use leviso.Fs.State.{Fs}
use leviso.Rebuild.{kernel_needs_compile, kernel_artifact}
use leviso.Rebuild.Fresh.{Lawful, UpToDate, needs_rebuild-UpToDate}
use leviso.Commands.Build.{System, ensure_kernel}

module _ (sys : System) (base_dir : FilePath) (laws : Lawful sys.cache) where
  abbrev pub IsCurrentKernel : Fs → Type 0
  IsCurrentKernel fs = UpToDate sys.cache laws (kernel_artifact sys.kit.names base_dir fs) fs

  ensure_kernel-compiled :
      (store : Bool) (fs t : Fs)
      → ensure_kernel sys base_dir store fs ≡ (ok tt, t)
      → kernel_needs_compile sys.cache sys.kit.names base_dir fs ≡ false
  unfolding ensure_kernel
  ensure_kernel-compiled store fs t h = ground arith

  -- With a lawful cache, a build gets past its kernel step only if the kernel is there and the
  -- stored hash is that of its current inputs.
  pub ensure_kernel-IsCurrentKernel :
      (store : Bool) (fs t : Fs)
      → ensure_kernel sys base_dir store fs ≡ (ok tt, t)
      → IsCurrentKernel fs
  unfolding kernel_needs_compile
  ensure_kernel-IsCurrentKernel store fs t h =
      (needs_rebuild-UpToDate sys.cache laws (kernel_artifact sys.kit.names base_dir fs) fs).0
        (ensure_kernel-compiled store fs t h)
