-- ===== src/Tests/Hosts.antt =====
-- Preflight, extraction and the boot test on small examples.
use leviso.Base.{
  String, [], ◌∷◌, ◌≡◌, ◌↔◌, refl, none, some, true, false, arith, ◌++◌, List, ℕ, if◌then◌else◌,
  ◌==◌, string_eq,
}
use leviso.Error.{err, ok, message}
use leviso.Exec.{pure}
use leviso.Text.{codes}
use leviso.Fs.Path.{FilePath}
use leviso.Fs.State.{Fs, node_at}
use leviso.Fs.Ops.{stat, lstat, resolve, create_dir_all, create_dirs_below, create_dir}
use leviso.Fs.Walk.{walk}
use leviso.Fs.Table.{insert, lookup}
use leviso.Tests.Data.{disk}
use leviso.Preflight.Dependencies.{Dependencies}
use leviso.Preflight.Driver.{run_preflight_or_fail}
use leviso.Preflight.Driver.Passed.{Ready, run_preflight_or_fail-Ready}
use leviso.Extract.{extract_contents, rootfs_dir, Programs, extract_rocky_iso}
use leviso.Fs.Kept.{exists-Keeps}
use leviso.Fs.Kept.Steps.{create_dir_all-Keeping}
use leviso.Extract.Rerun.{RemoveNothing, extract_rocky_iso_again}
use leviso.Qemu.{Round, watch, unseen, line, quiet, failed, first_pattern}
use leviso.Qemu.Watched.{expired_now, later, HasEnded, watch-HasEnded, Booted, watch-Booted}

abbrev deps : Dependencies
deps = record {
  which = λ tool. if tool == "xorriso" then none else some "/usr/bin/tool";
  env_var = λ name. none;
  has_linux_source = λ fs base. true;
  levitate_cargo_tools = "recstrap" ∷ [];
  output_dir = λ base. base ++ ("output" ∷ []);
  run = λ p arg fs. ok (record { success = true; stdout = codes "recipe 1.0\n"; stderr = [] });
  dir_len = 4096;
  dir_mode = 493;
}

run_preflight_or_fail-Ready_example :
    ((run_preflight_or_fail deps "/boot.efi" none ("base" ∷ []) disk).0 ≡ ok tt)
    ↔ Ready deps "/boot.efi" none ("base" ∷ []) disk
run_preflight_or_fail-Ready_example =
    run_preflight_or_fail-Ready deps "/boot.efi" none ("base" ∷ []) disk

-- A round in time
abbrev told : ℕ → String → Round
told t s = record { elapsed = t; stall_checked = t; received = t; event = line (codes s) }

abbrev silent : ℕ → Round
silent t = record { elapsed = t; stall_checked = t; received = t; event = quiet }

abbrev booting : List Round
booting = told 50 "BdsDxe: loading Boot0001" ∷ silent 150 ∷ told 180 "levitateos login:" ∷ []

-- A sign of failure counts before a sign of success.
panicking :
    watch 60 (told 10 "Kernel panic - Welcome to LevitateOS" ∷ []) unseen
    ≡ failed "Kernel panic" (codes "Kernel panic - Welcome to LevitateOS" ∷ [])
unfolding watch first_pattern
panicking = refl

watch-Booted_example : Booted "login:" booting
unfolding watch first_pattern
watch-Booted_example = watch-Booted 60 booting unseen "login:" refl

watch-HasEnded_example : HasEnded (watch 1 (silent 100 ∷ silent 1001 ∷ []) unseen)
watch-HasEnded_example =
    watch-HasEnded 1 (silent 100 ∷ silent 1001 ∷ []) unseen
      (later (silent 100) (silent 1001 ∷ []) (expired_now (silent 1001) [] (omega arith)))

-- `7z` unpacks an image, and `unsquashfs` fails.
abbrev programs : Programs
programs = record {
  run_interactive = λ program args msg.
      create_dir_all ("base" ∷ "downloads" ∷ "iso-contents" ∷ "images" ∷ "install.img" ∷ []);
  run_allow_fail = λ program args. pure (false, "no space left");
}

abbrev iso : FilePath
iso = "base" ∷ "downloads" ∷ "rocky.iso" ∷ []

programs-RemoveNothing : RemoveNothing programs
programs-RemoveNothing = record {
  interactive = λ program args msg s p h.
      exists-Keeps s _
        (create_dir_all-Keeping
          ("base" ∷ "downloads" ∷ "iso-contents" ∷ "images" ∷ "install.img" ∷ []) s)
        p h;
  allow_fail = λ program args s p h. h;
}

abbrev unpacked : Fs
unpacked = (extract_contents programs ("base" ∷ []) iso disk).1

abbrev emptied : Fs
emptied = (create_dir_all (rootfs_dir programs ("base" ∷ [])) unpacked).1

extract_rocky_iso_again_example :
    (extract_rocky_iso programs ("base" ∷ []) iso disk
      ≡ (err (message "unsquashfs failed." ("no space left" ∷ [])), emptied))
    × (extract_rocky_iso programs ("base" ∷ []) iso emptied ≡ (ok tt, emptied))
unfolding create_dir_all create_dirs_below create_dir stat lstat resolve walk node_at lookup insert
extract_rocky_iso_again_example =
    extract_rocky_iso_again programs ("base" ∷ []) iso programs-RemoveNothing disk unpacked emptied
      emptied ("base" ∷ "downloads" ∷ "iso-contents" ∷ "images" ∷ "install.img" ∷ [])
      "no space left" refl refl refl refl refl refl refl
