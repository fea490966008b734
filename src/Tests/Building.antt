-- ===== src/Tests/Building.antt =====
-- Runs of the executor and of the builder on a small tree.
use leviso.Base.{
  [], ◌∷◌, ◌≡◌, refl, none, some, if◌then◌else◌, length, ◌++◌, String, Option, All, true, string_eq,
}
use leviso.Error.{message, external, in_component, ok, err}
use leviso.Exec.{pure, fail, for_each, ◌>>◌}
use leviso.Fs.Path.{FilePath, join}
use leviso.Fs.State.{Fs}
use leviso.Fs.Ops.{exists, lexists, symlink, create_dir_all, write, create_dirs_below, create_dir}
use leviso.Fs.Copy.{copy, set_permissions, read_dir, children}
use leviso.Tests.Data.{lists, plain, disk}
use leviso.Fs.State.{dir, link, node_at}
use leviso.Fs.Ops.{stat, lstat, resolve}
use leviso.Fs.Walk.{walk}
use leviso.Fs.Table.{insert, lookup}
use leviso.Component.Types.{Op, Dest}
use leviso.Build.Libdeps.Trees.{copy_file, copy_dir_tree, copy_entries}
use leviso.Error.{io, already_exists}
use leviso.Build.{Externals, BuildContext, World, for_testing}
use leviso.Executor.Custom.Pam.{Auth}
use leviso.Executor.Custom.Outside.{Host}
use leviso.Executor.Binaries.{handle_bins}
use leviso.Builder.{build_system, copy_licenses}
use leviso.Builder.Run.{Failure, install_all, build_system-Failure, build_system-for_each}
use leviso.Text.{codes}
use leviso.Executor.Binaries.Missing.{BinsOutcome, handle_bins-BinsOutcome}
use leviso.Executor.Binaries.Tracked.{IsTracked, handle_bins-IsTracked}
use leviso.Build.Libdeps.Dangling.{copy_file_dangling}
use leviso.Fs.Kept.{Keeps}
use leviso.Build.Libdeps.Trees.Landed.{TreeCopied, copy_dir_tree-TreeCopied}
use leviso.Build.Libdeps.Trees.Kept.{copy_dir_tree-Keeps}
use leviso.Builder.Phased.{PhasedFailure, build_system-PhasedFailure}

-- A search that looks in one directory.
abbrev look_in : String → Fs → FilePath → String → Option FilePath
look_in folder fs source name =
    if exists fs (join (join source folder) name)
    then some (join (join source folder) name)
    else none

abbrev pub tools : Externals
tools = record {
  find_binary = look_in "usr/bin";
  find_sbin_binary = look_in "usr/sbin";
  get_all_dependencies = λ source p extra. pure ("libc.so.6" ∷ []);
  make_executable = λ p. set_permissions p 493;
  create_symlink_if_missing =
      λ target p fs. if lexists fs p then (ok tt, fs) else symlink target p fs;
  copy_library_to = λ source lib staging a b extra private. pure tt;
  output_dir = λ base. join base "output";
  shell_in = λ cmd dir. fail (external "rpm2cpio");
  handle_dir = λ staging p. create_dir_all (join staging p);
  handle_dirmode = λ staging p mode. create_dir_all (join staging p);
  handle_dirs = λ staging. for_each (λ p. create_dir_all (join staging p));
  handle_writefile = λ staging p content. write (join staging p) (codes content);
  handle_writefilemode = λ staging p content mode. write (join staging p) (codes content);
  handle_symlink = λ staging p target. fail (external "symlink");
  copy_licenses = λ calls source staging. pure (length calls);
}

abbrev texts : Auth
texts = record {
  pam_system_auth = "";
  pam_postlogin = "";
  pam_login = "";
  pam_remote = "";
  pam_sshd = "";
  pam_runuser = "";
  pam_runuser_l = "";
  pam_su = "";
  pam_su_l = "";
  pam_sudo = "";
  pam_crond = "";
  pam_systemd_user = "";
  pam_passwd = "";
  pam_chpasswd = "";
  pam_chfn = "";
  pam_chsh = "";
  pam_other = "";
  limits_conf = "";
  access_conf = "";
  namespace_conf = "";
  pam_env_conf = "";
  pwquality_conf = "";
}

abbrev pub host : Host
host = record {
  auth = texts;
  live_issue_message = "LevitateOS Live\n";
  levitate_cargo_tools = "recstrap" ∷ "recfstab" ∷ "recchroot" ∷ [];
  manifest_dir = "base" ∷ [];
  env_var = λ name. none;
  copy_dir_recursive = λ src dst. create_dir_all dst >> pure 0;
  status = λ program args dir. pure true;
  run = λ program args msg. pure tt;
}

abbrev pub ctx : BuildContext
ctx = for_testing ("src" ∷ []) ("staging" ∷ []) ("base" ∷ [])

abbrev pub world : World
world = record {
  fs = record {
    nodes =
        disk.nodes
        ++ (("src" ∷ "usr" ∷ [], dir)
            ∷ ("src" ∷ "usr" ∷ "bin" ∷ [], dir)
            ∷ ("src" ∷ "usr" ∷ "bin" ∷ "ls" ∷ [], plain "elf")
            ∷ ("src" ∷ "usr" ∷ "bin" ∷ "dir" ∷ [], link "ls")
            ∷ []);
    clock = 1;
  };
  registered = [];
}

-- The link is made, the file behind it is copied, and what is missing is reported.
handle_bins_run :
    (handle_bins tools 5 ctx ("dir" ∷ "nope" ∷ "ls" ∷ "nano" ∷ []) Dest.bin world).0
    ≡ err (message "Missing binaries" ("nope" ∷ "nano" ∷ []))
unfolding handle_bins stat lstat resolve walk node_at insert lookup create_dir_all symlink copy
    set_permissions
handle_bins_run = refl

handle_bins-BinsOutcome_example :
    BinsOutcome tools 5 ctx Dest.bin world
      ("dir" ∷ "nope" ∷ "ls" ∷ "nano" ∷ [])
      (handle_bins tools 5 ctx ("dir" ∷ "nope" ∷ "ls" ∷ "nano" ∷ []) Dest.bin world)
handle_bins-BinsOutcome_example =
    handle_bins-BinsOutcome tools 5 ctx Dest.bin ("dir" ∷ "nope" ∷ "ls" ∷ "nano" ∷ []) world

build_is_one_loop :
    build_system tools host 5 lists ctx world
    ≡ (install_all tools host 5 lists ctx >> copy_licenses tools host 5 lists ctx) world
build_is_one_loop = build_system-for_each tools host 5 lists ctx world

-- The directories are made, then the first link fails.
failing_build : build_system tools host 5 lists ctx world ≡ (
  err (in_component "filesystem" (Op.symlink "bin" "usr/bin") (external "symlink")),
  (build_system tools host 5 lists ctx world).1,
)
unfolding build_system stat resolve walk node_at insert lookup create_dir_all
failing_build = refl

build_system-Failure_example :
    Failure tools host 5 lists ctx world
      (in_component "filesystem" (Op.symlink "bin" "usr/bin") (external "symlink"))
      (build_system tools host 5 lists ctx world).1
build_system-Failure_example =
    build_system-Failure tools host 5 lists ctx world (build_system tools host 5 lists ctx world).1
      (in_component "filesystem" (Op.symlink "bin" "usr/bin") (external "symlink")) failing_build

-- Both are found, so both are tracked.
found_run :
    handle_bins tools 5 ctx ("dir" ∷ "ls" ∷ []) Dest.bin world
    ≡ (ok tt, (handle_bins tools 5 ctx ("dir" ∷ "ls" ∷ []) Dest.bin world).1)
unfolding handle_bins stat lstat resolve walk node_at insert lookup create_dir_all symlink copy
    set_permissions
found_run = refl

handle_bins-IsTracked_example :
    All
      (IsTracked (handle_bins tools 5 ctx ("dir" ∷ "ls" ∷ []) Dest.bin world).1)
      ("dir" ∷ "ls" ∷ [])
handle_bins-IsTracked_example =
    handle_bins-IsTracked tools 5 ctx Dest.bin ("dir" ∷ "ls" ∷ []) world
      (handle_bins tools 5 ctx ("dir" ∷ "ls" ∷ []) Dest.bin world).1 found_run

-- A link of the source leads to a file there; in the staging tree there is no such file.
abbrev linked : Fs
linked = record {
  nodes =
      disk.nodes
      ++ (("src" ∷ "etc" ∷ "hosts" ∷ [], plain "localhost")
          ∷ ("src" ∷ "etc" ∷ "names" ∷ [], link "hosts")
          ∷ []);
  clock = 1;
}

abbrev copied_once : Fs
copied_once = record {
  nodes = linked.nodes ++ (("staging" ∷ "etc" ∷ "names" ∷ [], link "hosts") ∷ []);
  clock = 2;
}

first_copy : copy_file ctx "etc/names" linked ≡ (ok true, copied_once)
unfolding copy_file stat lstat resolve walk node_at insert lookup create_dir_all symlink
first_copy = refl

copy_file_dangling_example :
    copy_file ctx "etc/names" copied_once ≡ (err (io already_exists), copied_once)
unfolding stat lstat resolve walk node_at insert lookup create_dir_all
copy_file_dangling_example =
    copy_file_dangling ctx "etc/names" "hosts" copied_once refl refl refl refl refl

-- The tree of `usr`: a directory, a file and a link
abbrev copied_tree : Fs
copied_tree = (copy_dir_tree ctx 2 "usr" world.fs).1

copy_dir_tree-Keeps_example : Keeps world.fs copied_tree
copy_dir_tree-Keeps_example = copy_dir_tree-Keeps ctx 2 "usr" world.fs

copy_dir_tree-TreeCopied_example : TreeCopied ctx 1 "usr" world.fs copied_tree
unfolding copy_dir_tree copy_entries copy symlink create_dir_all create_dirs_below create_dir
    read_dir children stat lstat resolve walk node_at lookup insert
copy_dir_tree-TreeCopied_example =
    copy_dir_tree-TreeCopied ctx 1 "usr" world.fs copied_tree 2 refl refl

build_system-PhasedFailure_example :
    PhasedFailure tools host 5 lists ctx world
      (in_component "filesystem" (Op.symlink "bin" "usr/bin") (external "symlink"))
      (build_system tools host 5 lists ctx world).1
build_system-PhasedFailure_example =
    build_system-PhasedFailure tools host 5 lists ctx world
      (build_system tools host 5 lists ctx world).1
      (in_component "filesystem" (Op.symlink "bin" "usr/bin") (external "symlink")) failing_build
