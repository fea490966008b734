-- ===== src/Lib.antt =====
-- leviso builds a bootable system image out of the tree of a Rocky Linux ISO. This library models
-- the parts that decide what gets into the image, and states what they do.
--
-- The parts and how they interact
-- A build (`leviso build`) checks the host first (src/preflight), decides which artifacts are out of
-- date (src/rebuild.rs), and installs the components of src/component/definitions.rs into a staging
-- tree: src/component/builder.rs runs src/component/executor over each component in the order of its
-- phase, the executor interprets one `Op` at a time and calls src/build/libdeps.rs for binaries and
-- trees, src/build/users.rs for accounts, and src/component/custom for the rest. `leviso clean`
-- (src/clean.rs) removes what builds have made.
--
-- Files
--   Base, Text         booleans, lists, the `==` of Rust, and what `str` and `u32` do; no program code
--   Error, Exec        `anyhow::Result` with its contexts, and functions that change a world and may
--                      fail: what was done before an error stays done; Exec/Loops has their laws
--   Fs                 the calls of `std::fs` and `std::path` over an explicit file system: a table from
--                      paths to directories, files and links, and a clock
--   Component/Types, Helpers   src/component/mod.rs (`Op`, `Phase`, `Component`, `Installable`)
--   Component/Service          src/component/service.rs (`Service::ops`)
--   Component/Spec             the lists of distro-spec, a parameter of the definitions
--   Component/Definitions      src/component/definitions.rs, one definition for each static
--   Build                      src/build/context.rs, the world of a build (the file system and the calls
--                              of the license tracker) and the functions of other crates
--   Build/Libdeps, Trees       src/build/libdeps.rs
--   Build/Filesystem           src/build/filesystem.rs
--   Users                      src/build/users.rs
--   Executor                   src/component/executor: `execute` and `execute_op`; Binaries, Systemd and
--                              Files below it are the handlers of the files of these names
--   Executor/Custom            src/component/custom: `execute` of mod.rs, and below it Pam, Modules,
--                              Firmware, Live, Etc and Packages for the files of these names, and
--                              Tools for install_docs_tui and install_stage_tests
--   Builder                    src/component/builder.rs
--   Rebuild                    src/rebuild.rs
--   Preflight                  src/preflight/types.rs; Validators, HostTools, Environment and Dependencies
--                              below it for the files of these names, Driver for mod.rs and
--                              src/commands/preflight.rs
--   Clean                      src/clean.rs and src/commands/clean.rs
--   Config, Common             src/config.rs and src/common
--   Recipe                     src/recipe; Qemu below it is qemu.rs there
--   Artifact/Rootfs, Initramfs, Uki, Iso   the files of these names in src/artifact
--   Artifact/Qcow2             src/artifact/qcow2; Configuration below it is config.rs there
--   Artifact/Kit               the crates that make and verify images, parameters
--   Commands/Build             src/commands/build.rs: the order of the steps of a build
--   Commands/Run               src/commands/run.rs and src/commands/download.rs
--   Commands/Show              src/commands/show.rs: the lines that are printed
--   Qemu                       src/qemu.rs: the start of QEMU, and the boot test as a loop over rounds
--   Extract                    src/extract.rs and src/commands/extract.rs
--   Resolve                    src/resolve.rs
--   Tests                      runs on concrete data, and every theorem at such data
--
-- How the code is translated
-- A function that returns `Result` and touches the disk is a function from a world to a result and a
-- world, `?` is the bind, a `for` loop over `?` is `for_each`, `with_context` wraps the error. A `u32`
-- is a number; parsing is bounded by 2 ^ 32. A path is the list of its components; a text is the list
-- of its code points. Names that `format!` puts into a message are kept, the wording around them is
-- shortened. Of what is printed only the lines of the show command are modelled.
--
-- Bounds and fuel
-- Path resolution follows at most 40 links, as the kernel does, and fails then. A `u32` has at most ten
-- digits, so ten rounds print it. `copy_binary_with_libs` takes as fuel how many links it follows; for
-- a name that the search can find, two more than there are such names are enough, by Build.Libdeps.Fuel.
-- `copy_dir_tree` takes the depth of the tree as fuel, and ends with an error of its own if it is used up; so does the
-- copy of kernel modules. The boot test runs over a list of rounds, each with the times at which it reads
-- the clock, and is still going if the list is used up before it decides.
--
-- What is not modelled
-- The crates distro-builder, distro-spec, leviso-elf, recinit, reciso and recipe and the programs that
-- are run are parameters: records of functions and constants (Build.Externals, Component.Spec,
-- Rebuild.Cache, Rebuild.Names, Clean.Env, Executor.Custom.Outside, Artifact.Kit, Artifact.Qcow2.Disk,
-- RecipeKit, Store and System of Recipe and Commands.Build, and the records at the head of Extract,
-- Resolve, Qemu and Preflight.Dependencies). Permissions, disk errors, the modes of
-- directories and concurrent changes of the disk are not in the file system. Timers and what is printed
-- are left out, but for the show command. Not modelled is src/main.rs, which parses the command line.
pub mod Base
pub mod Text
pub mod Component
pub mod Error
pub mod Exec
pub mod Fs
pub mod Users
pub mod Clean
pub mod Build
pub mod Config
pub mod Common
pub mod Preflight
pub mod Rebuild
pub mod Executor
pub mod Builder
pub mod Artifact
pub mod Recipe
pub mod Qemu
pub mod Extract
pub mod Resolve
pub mod Commands
mod Tests
