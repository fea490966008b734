-- ===== src/Component/Helpers.antt =====
-- src/component/mod.rs: the `const fn` helpers in which the definitions are written.
use leviso.Base.{ℕ, String, List}
use leviso.Component.Types.{Op, Dest, Target, CustomOp}

abbrev pub dir : String → Op
dir path = Op.dir path

abbrev pub dir_mode : String → ℕ → Op
dir_mode path mode = Op.dir_mode path mode

abbrev pub dirs : List String → Op
dirs paths = Op.dirs paths

abbrev pub bin : String → Op
bin name = Op.bin name Dest.bin

abbrev pub sbin : String → Op
sbin name = Op.bin name Dest.sbin

abbrev pub bins : List String → Op
bins names = Op.bins names Dest.bin

abbrev pub sbins : List String → Op
sbins names = Op.bins names Dest.sbin

abbrev pub copy_tree : String → Op
copy_tree path = Op.copy_tree path

abbrev pub copy_file : String → Op
copy_file path = Op.copy_file path

abbrev pub units : List String → Op
units names = Op.units names

abbrev pub user_units : List String → Op
user_units names = Op.user_units names

abbrev pub enable_multi_user : String → Op
enable_multi_user unit = Op.enable unit Target.multi_user

abbrev pub enable_getty : String → Op
enable_getty unit = Op.enable unit Target.getty

abbrev pub enable_sockets : String → Op
enable_sockets unit = Op.enable unit Target.sockets

abbrev pub enable_sysinit : String → Op
enable_sysinit unit = Op.enable unit Target.sysinit

abbrev pub symlink : String → String → Op
symlink link target = Op.symlink link target

abbrev pub write_file : String → String → Op
write_file path content = Op.write_file path content

abbrev pub write_file_mode : String → String → ℕ → Op
write_file_mode path content mode = Op.write_file_mode path content mode

abbrev pub user : String → ℕ → ℕ → String → String → Op
user name uid gid home shell = Op.user name uid gid home shell

abbrev pub group : String → ℕ → Op
group name gid = Op.group name gid

abbrev pub custom : CustomOp → Op
custom op = Op.custom op
