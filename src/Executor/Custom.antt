-- ===== src/Executor/Custom.antt =====
-- src/component/custom/mod.rs: the dispatch of the custom operations. `fuel` bounds the recursion of
-- modules.rs.
pub mod Pam
pub mod Outside
pub mod Modules
pub mod Firmware
pub mod Live
pub mod Etc
pub mod Packages
pub mod Tools
use leviso.Base.{ℕ}
use leviso.Exec.{◌>>◌, Exec}
use leviso.Component.Types.{CustomOp}
use leviso.Build.{BuildContext, World, Externals, on_fs, register, of_package}
use leviso.Executor.Custom.Outside.{Host}
use leviso.Executor.Custom.Pam.{create_pam_files, create_security_config, disable_selinux}
use leviso.Executor.Custom.Modules.{copy_modules, run_depmod}
use leviso.Executor.Custom.Firmware.{copy_wifi_firmware, copy_all_firmware}
use leviso.Executor.Custom.Live.{
  create_live_overlay, create_welcome_message, install_tools, setup_live_systemd_configs,
}
use leviso.Executor.Custom.Etc.{
  create_etc_files, copy_timezone_data, copy_locales, create_ssh_host_keys,
}
use leviso.Executor.Custom.Packages.{
  copy_systemd_boot_efi, copy_keymaps, copy_recipe, setup_recipe_config,
}
use leviso.Executor.Custom.Tools.{install_docs_tui, install_stage_tests}

module _ (ext : Externals) (host : Host) (fuel : ℕ) (ctx : BuildContext) where
  -- `custom::execute`
  unfoldable pub execute_custom : CustomOp → Exec World (Unit {0})
  unfolding create_pam_files create_security_config disable_selinux create_live_overlay
      create_welcome_message install_tools setup_live_systemd_configs copy_wifi_firmware
      copy_all_firmware run_depmod copy_modules create_etc_files copy_timezone_data copy_locales
      create_ssh_host_keys copy_systemd_boot_efi copy_keymaps copy_recipe setup_recipe_config
      install_docs_tui install_stage_tests
  execute_custom CustomOp.create_live_overlay = on_fs (create_live_overlay host ctx)
  execute_custom CustomOp.create_welcome_message = on_fs (create_welcome_message host ctx)
  execute_custom CustomOp.install_tools = on_fs (install_tools ext host ctx)
  execute_custom CustomOp.setup_live_systemd_configs = on_fs (setup_live_systemd_configs ctx)
  execute_custom CustomOp.copy_wifi_firmware =
      register (of_package "linux-firmware") >> on_fs (copy_wifi_firmware host ctx)
  execute_custom CustomOp.copy_all_firmware =
      register (of_package "linux-firmware")
      >> register (of_package "microcode_ctl")
      >> on_fs (copy_all_firmware host ctx)
  execute_custom CustomOp.run_depmod = on_fs (run_depmod host fuel ctx)
  execute_custom CustomOp.copy_modules =
      register (of_package "kernel") >> on_fs (copy_modules host fuel ctx)
  execute_custom CustomOp.create_etc_files = on_fs (create_etc_files host ctx)
  execute_custom CustomOp.copy_timezone_data =
      register (of_package "tzdata") >> on_fs (copy_timezone_data host ctx)
  execute_custom CustomOp.copy_locales = on_fs (copy_locales host ctx)
  execute_custom CustomOp.create_ssh_host_keys = on_fs (create_ssh_host_keys host ctx)
  execute_custom CustomOp.create_pam_files = on_fs (create_pam_files host.auth ctx)
  execute_custom CustomOp.create_security_config = on_fs (create_security_config host.auth ctx)
  execute_custom CustomOp.disable_selinux = on_fs (disable_selinux ctx)
  execute_custom CustomOp.copy_systemd_boot_efi = on_fs (copy_systemd_boot_efi ext host ctx)
  execute_custom CustomOp.copy_keymaps =
      register (of_package "kbd") >> on_fs (copy_keymaps ext host ctx)
  execute_custom CustomOp.copy_recipe = on_fs (copy_recipe ext host ctx)
  execute_custom CustomOp.setup_recipe_config = on_fs (setup_recipe_config ext host ctx)
  execute_custom CustomOp.copy_docs_tui = install_docs_tui ext host ctx
  execute_custom CustomOp.install_stage_tests = on_fs (install_stage_tests ctx)
