-- ===== src/Artifact.antt =====
-- src/artifact: the images that a build makes. Initramfs, Iso, Rootfs and Uki are the files of these
-- names in src/artifact, Qcow2 is src/artifact/qcow2; Kit holds what they take from other crates.
pub mod Kit
pub mod Rootfs
pub mod Initramfs
pub mod Uki
pub mod Iso
pub mod Qcow2
