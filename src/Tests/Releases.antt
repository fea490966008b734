-- ===== src/Tests/Releases.antt =====
-- The ISO image on a small disk.
use leviso.Base.{String, [], ◌∷◌, ◌++◌, ◌≡◌, refl, map, ◌↔◌}
use leviso.Error.{ok, err, message}
use leviso.Fs.Path.{FilePath, components}
use leviso.Fs.State.{Fs, Node, dir, node_at}
use leviso.Fs.Ops.{stat, lstat, resolve}
use leviso.Fs.Walk.{walk}
use leviso.Fs.Table.{lookup, insert, erase, erase_tree}
use leviso.Artifact.Kit.{unreadable}
use leviso.Artifact.Iso.{place_iso, make_iso, create_iso}
use leviso.Commands.Build.{System}
use leviso.Tests.Data.{plain}
use leviso.Tests.Building.{host}
use leviso.Tests.Images.{kit, system, base, project}
use leviso.Fs.Copy.{read_dir}
use leviso.Text.{contains_text}
use leviso.Artifact.Iso.Accepted.{IsAccepted, opened, create_iso-IsAccepted}
use leviso.Commands.Run.{ensure_iso_built}
use leviso.Commands.Run.Unchecked.{create_iso_rejected}

abbrev dir_at : String → FilePath × Node
dir_at p = ("base" ∷ components p, dir)

abbrev file_at : String → FilePath × Node
file_at p = ("base" ∷ components p, plain "x")

-- The project with the parts of the image and the files of the live overlay
abbrev parts : Fs
parts = record project {
  nodes =
      project.nodes
      ++ (map dir_at (
            "src" ∷ "src/component" ∷ "src/component/custom" ∷ "src/component/custom/live"
            ∷ "src/component/custom/live/overlay" ∷ "src/component/custom/live/overlay/etc"
            ∷ "src/component/custom/live/overlay/etc/systemd"
            ∷ "src/component/custom/live/overlay/etc/systemd/system"
            ∷ "src/component/custom/live/overlay/etc/systemd/system/getty@tty1.service.d"
            ∷ "src/component/custom/live/overlay/etc/systemd/system/serial-getty@.service.d"
            ∷ "src/component/custom/live/overlay/etc/profile.d" ∷ [])
          ++ map file_at (
              "output/filesystem.erofs" ∷ "output/initramfs-live.cpio.gz"
              ∷ "src/component/custom/live/overlay/etc/systemd/system/getty@tty1.service.d/autologin.conf"
              ∷ "src/component/custom/live/overlay/etc/systemd/system/serial-getty@.service.d/zz-autologin.conf"
              ∷ "src/component/custom/live/overlay/etc/shadow"
              ∷ "src/component/custom/live/overlay/etc/profile.d/00-levitate-test.sh"
              ∷ "src/component/custom/live/overlay/etc/profile.d/live-docs.sh" ∷ []));
}

-- The verification cannot read the image.
abbrev strict : System
strict = record system { kit = record kit { check_iso = λ fs p. unreadable "no volume" } }

abbrev released : Fs
released = (place_iso strict.kit host base parts).1

is_released : place_iso strict.kit host base parts ≡ (ok tt, released)
unfolding place_iso make_iso read_dir stat lstat resolve walk node_at lookup insert erase erase_tree
is_released = refl

create_iso-IsAccepted_example : (create_iso kit host base parts ≡ (ok tt, released)) ↔ (
    (place_iso kit host base parts ≡ (ok tt, released))
    × IsAccepted (opened kit host base released))
create_iso-IsAccepted_example = create_iso-IsAccepted kit host base parts released

-- The rejected image stays, and `leviso run` takes it.
create_iso_rejected_example :
    (create_iso strict.kit host base parts
      ≡ (err (message "Failed to open ISO" ("no volume" ∷ [])), released))
    × (ensure_iso_built strict base released ≡ (ok tt, released))
unfolding place_iso make_iso read_dir stat lstat resolve walk node_at lookup insert erase erase_tree
    contains_text
create_iso_rejected_example =
    create_iso_rejected strict base parts released (message "Failed to open ISO" ("no volume" ∷ []))
      is_released refl refl
