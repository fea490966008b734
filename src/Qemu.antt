-- ===== src/Qemu.antt =====
-- src/qemu.rs: starting the image in QEMU, and the boot test that watches its serial console. recqemu,
-- the crate that builds the command line, is a parameter. Times are in milliseconds.
pub mod Watched
use leviso.Base.{
  String, ◌<>◌, List, [], ◌∷◌, ◌++◌, ℕ, ◌*◌, ◌-◌, suc, zero, Bool, true, false, not, ◌||◌, Option,
  none, some, ltb, if◌then◌else◌, map,
}
use leviso.Error.{Error, Result, ok, err, message, context}
use leviso.Exec.{Exec, ◌>>=◌, ◌>>◌, pure, fail, with_context}
use leviso.Text.{Text, codes, contains_text}
use leviso.Fs.Path.{FilePath, join, display}
use leviso.Fs.State.{Fs}
use leviso.Fs.Ops.{exists}

abbrev pub success_patterns : List String
success_patterns =
    "login:" ∷ "Welcome to LevitateOS" ∷ "Startup finished" ∷ "systemd[1]: Reached target"
    ∷ "systemd[1]: Started Getty" ∷ []

abbrev pub failure_patterns : List String
failure_patterns =
    "Kernel panic" ∷ "not syncing" ∷ "VFS: Cannot open root device" ∷ "No init found"
    ∷ "can't find /init" ∷ "EROFS error" ∷ "failed to mount" ∷ "emergency.target"
    ∷ "No bootable device" ∷ "Boot Failed" ∷ []

-- The first of the patterns that the line contains
unfoldable pub first_pattern : Text → List String → Option String
first_pattern line [] = none
first_pattern line (p ∷ ps) =
    let rest = first_pattern line ps in if contains_text (codes p) line then some p else rest

-- What the channel from the reader thread gives in a round: a line, nothing for 100 ms, or that the
-- other end is gone.
pub data Event : Type 0 where
  line : Text → Event
  quiet disconnected : Event

-- A round of the loop, with the times at which it looks at the two clocks and at which it received.
pub record Round : Type 0 where
  pub elapsed : ℕ
  pub stall_checked : ℕ
  pub received : ℕ
  pub event : Event

pub record Watch : Type 0 where
  pub last_output : ℕ
  pub output_buffer : List Text
  pub saw_uefi : Bool
  pub saw_kernel : Bool
  pub saw_init : Bool

-- How the loop ends, or that it goes on.
pub data Verdict : Type 0 where
  going : Watch → Verdict
  success : String → Verdict
  failed : String → List Text → Verdict
  timed_out : List Text → Verdict
  stalled : String → Verdict
  exited : List Text → Verdict

abbrev pub take : ℕ → List Text → List Text
take zero xs = []
take (suc n) [] = []
take (suc n) (x ∷ xs) = x ∷ take n xs

abbrev pub reverse : List Text → List Text
reverse [] = []
reverse (x ∷ xs) = reverse xs ++ (x ∷ [])

-- `iter().rev().take(n)`, turned around again
abbrev pub last_lines : ℕ → List Text → List Text
last_lines n buffer = reverse (take n (reverse buffer))

abbrev pub stage_of : Watch → String
stage_of w =
    if w.saw_init
    then "Init started but stalled"
    else if w.saw_kernel
    then "Kernel started but init stalled"
    else if w.saw_uefi
    then "UEFI ran but kernel stalled"
    else "No output - QEMU/serial broken"

-- What a line adds to what was seen.
abbrev pub seen : ℕ → Text → Watch → Watch
seen now l w = record {
  last_output = now;
  output_buffer = w.output_buffer ++ (l ∷ []);
  saw_uefi =
      w.saw_uefi
      || contains_text (codes "UEFI") l
      || contains_text (codes "EFI") l
      || contains_text (codes "BdsDxe") l;
  saw_kernel =
      w.saw_kernel
      || contains_text (codes "Linux version") l
      || contains_text (codes "Booting Linux") l;
  saw_init = w.saw_init || contains_text (codes "systemd") l || contains_text (codes "init") l;
}

abbrev pub decided : Watch → Option String → Option String → Verdict
decided w (some pattern) ok_pattern = failed pattern (last_lines 30 w.output_buffer)
decided w none (some pattern) = success pattern
decided w none none = going w

-- The failure patterns are looked for first.
unfoldable pub on_line : ℕ → Text → Watch → Verdict
unfolding first_pattern contains_text
on_line now l w =
    decided (seen now l w) (first_pattern l failure_patterns) (first_pattern l success_patterns)

abbrev pub on_event : ℕ → Event → Watch → Verdict
on_event now (line l) w = on_line now l w
on_event now quiet w = going w
on_event now disconnected w = exited (last_lines 20 w.output_buffer)

-- A round: both timeouts are checked before the channel is read.
unfoldable pub round : ℕ → Round → Watch → Verdict
unfolding on_line
round timeout_secs r w =
    if ltb (timeout_secs * 1000) r.elapsed
    then timed_out (last_lines 20 w.output_buffer)
    else if ltb 30000 (r.stall_checked - w.last_output)
    then stalled (stage_of w)
    else on_event r.received r.event w

-- A verdict ends the loop.
abbrev pub next : Verdict → (Watch → Verdict) → Verdict
next (going v) rest = rest v
next (success p) rest = success p
next (failed p ls) rest = failed p ls
next (timed_out ls) rest = timed_out ls
next (stalled s) rest = stalled s
next (exited ls) rest = exited ls

-- The loop over the rounds that take place; it is still going when they are used up.
unfoldable pub watch : ℕ → List Round → Watch → Verdict
unfolding round
watch timeout_secs [] w = going w
watch timeout_secs (r ∷ rs) w =
    let rest : Watch → Verdict = λ v. watch timeout_secs rs v in next (round timeout_secs r w) rest

abbrev pub unseen : Watch
unseen = record {
  last_output = 0;
  output_buffer = [];
  saw_uefi = false;
  saw_kernel = false;
  saw_init = false;
}

abbrev pub boot_error : String → Error
boot_error what = message what []

-- What the test returns for how its loop ended; a loop that is still going has not returned.
abbrev pub result_of : Verdict → Option (Result (Unit {0}))
result_of (going w) = none
result_of (success p) = some (ok tt)
result_of (failed p ls) = some (err (message "BOOT FAILED" (p ∷ [])))
result_of (timed_out ls) = some (err (message "TIMEOUT: Boot did not complete" []))
result_of (stalled stage) = some (err (message "STALL" (stage ∷ [])))
result_of (exited ls) = some (err (message "QEMU exited unexpectedly" []))

pub record QemuKit : Type 0 where
  -- distro-spec and distro-builder; the size is `QEMU_DISK_GB` with its unit
  pub iso_filename : String
  pub qemu_disk_filename : String
  pub qemu_disk_size : String
  pub qemu_serial_log : String
  pub output_dir : FilePath → FilePath
  -- recqemu
  pub create_disk : FilePath → String → Exec Fs (Unit {0})
  pub find_ovmf : Fs → Option FilePath
  -- the image, the disk, the firmware and the log: whether QEMU ends well
  pub run_window : FilePath → FilePath → FilePath → FilePath → Exec Fs Bool
  -- the image and the firmware: the rounds in which the loop then reads the console
  pub spawn_headless : FilePath → FilePath → Exec Fs (List Round)

module _ (qemu : QemuKit) (base_dir : FilePath) where
  abbrev pub iso_path : FilePath
  iso_path = join (qemu.output_dir base_dir) qemu.iso_filename

  abbrev pub disk_path : FilePath
  disk_path = join (qemu.output_dir base_dir) qemu.qemu_disk_filename

  abbrev require_iso : Exec Fs (Unit {0})
  require_iso fs =
      if not (exists fs iso_path)
      then (err (message "ISO not found" (display iso_path ∷ [])), fs)
      else (ok tt, fs)

  abbrev size_or : Option String → String
  size_or none = qemu.qemu_disk_size
  size_or (some size) = size

  abbrev ensure_disk : Option String → Exec Fs (Unit {0})
  ensure_disk disk_size fs =
      if not (exists fs disk_path)
      then qemu.create_disk disk_path (size_or disk_size) fs
      else (ok tt, fs)

  abbrev ovmf_or : String → Option FilePath → Exec Fs FilePath
  ovmf_or missing none = fail (message missing [])
  ovmf_or missing (some p) = pure p

  abbrev require_ovmf : String → Exec Fs FilePath
  require_ovmf missing fs = ovmf_or missing (qemu.find_ovmf fs) fs

  unfoldable pub run_iso : Option String → Exec Fs (Unit {0})
  run_iso disk_size = do
    require_iso
    ensure_disk disk_size
    ovmf_path ← require_ovmf "OVMF firmware not found. LevitateOS requires UEFI boot."
    succeeded ← with_context (context "Failed to run qemu-system-x86_64. Is QEMU installed?") (
        qemu.run_window iso_path disk_path ovmf_path
          (join (qemu.output_dir base_dir) qemu.qemu_serial_log))
    if not succeeded then fail (message "QEMU exited with status" []) else pure tt

  -- The verdict of the loop, which `result_of` makes the result of the function.
  unfoldable pub test_iso : ℕ → Exec Fs Verdict
  unfolding watch
  test_iso timeout_secs = do
    require_iso
    ovmf_path ← require_ovmf "OVMF not found - UEFI boot required"
    rounds ←
        with_context (context "Failed to spawn qemu-system-x86_64")
          (qemu.spawn_headless iso_path ovmf_path)
    pure (watch timeout_secs rounds unseen)
