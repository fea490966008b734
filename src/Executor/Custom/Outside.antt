-- ===== src/Executor/Custom/Outside.antt =====
-- What the operations of src/component/custom take from outside the repository and from the process.
use leviso.Base.{String, List, ℕ, Bool, Option}
use leviso.Exec.{Exec}
use leviso.Fs.Path.{FilePath}
use leviso.Fs.State.{Fs}
use leviso.Executor.Custom.Pam.{Auth}

pub record Host : Type 0 where
  -- `distro_spec::shared::auth`
  pub auth : Auth
  -- `LIVE_ISSUE_MESSAGE` and `LEVITATE_CARGO_TOOLS` of distro-spec
  pub live_issue_message : String
  pub levitate_cargo_tools : List String
  -- `env!("CARGO_MANIFEST_DIR")` and `std::env::var`
  pub manifest_dir : FilePath
  pub env_var : String → Option String
  -- `leviso_elf::copy_dir_recursive`, which returns how many bytes it has copied
  pub copy_dir_recursive : FilePath → FilePath → Exec Fs ℕ
  -- `Command::new(program).args(args).status()`, in a directory if one is given: whether the program
  -- succeeded
  pub status : String → List String → Option FilePath → Exec Fs Bool
  -- `Cmd::new(program).args(args).error_msg(msg).run()` of distro-builder
  pub run : String → List String → String → Exec Fs (Unit {0})
