-- ===== src/Config.antt =====
-- src/config.rs: the settings of a build. Loading of `.env` files is not modelled; `print` is in Commands/Show.
pub mod Names
use leviso.Base.{
  String, List, [], ◌∷◌, ◌++◌, Option, none, some, map, not, ◌==◌, filterb, string_eq,
}
use leviso.Fs.Path.{split_on}
use leviso.Text.{trim_of}

abbrev pub essential_modules : List String
essential_modules =
    "kernel/drivers/block/virtio_blk.ko.xz" ∷ "kernel/fs/mbcache.ko.xz"
    ∷ "kernel/fs/jbd2/jbd2.ko.xz" ∷ "kernel/fs/ext4/ext4.ko.xz" ∷ "kernel/fs/fat/fat.ko.xz"
    ∷ "kernel/fs/fat/vfat.ko.xz" ∷ "kernel/drivers/scsi/virtio_scsi.ko.xz"
    ∷ "kernel/drivers/cdrom/cdrom.ko.xz" ∷ "kernel/drivers/scsi/sr_mod.ko.xz"
    ∷ "kernel/fs/isofs/isofs.ko.xz" ∷ "kernel/net/core/failover.ko.xz"
    ∷ "kernel/drivers/net/net_failover.ko.xz" ∷ "kernel/drivers/net/virtio_net.ko.xz"
    ∷ "kernel/drivers/net/ethernet/intel/e1000/e1000.ko.xz"
    ∷ "kernel/drivers/net/ethernet/intel/e1000e/e1000e.ko.xz"
    ∷ "kernel/drivers/net/ethernet/realtek/r8169.ko.xz" ∷ []

pub record Config : Type 0 where
  pub kernel_localversion : String
  pub extra_modules : List String

-- `s.split(',').map(trim).filter(not empty)`
unfoldable pub parse_modules : String → List String
parse_modules s = filterb (λ m. not (m == "")) (map trim_of (split_on b',' s))

abbrev or_else : Option String → String → String
or_else (some v) d = v
or_else none d = d

abbrev modules_of : Option String → List String
modules_of (some s) = parse_modules s
modules_of none = []

-- `env_var` is `std::env::var`.
unfoldable pub load : (String → Option String) → Config
unfolding parse_modules
load env_var = record {
  kernel_localversion = or_else (env_var "KERNEL_LOCALVERSION") "-levitate";
  extra_modules = modules_of (env_var "EXTRA_MODULES");
}

unfoldable pub all_modules : Config → List String
all_modules config = essential_modules ++ config.extra_modules
