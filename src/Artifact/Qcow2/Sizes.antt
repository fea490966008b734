-- ===== src/Artifact/Qcow2/Sizes.antt =====
-- src/artifact/qcow2/mod.rs: the size of the root partition.
use leviso.Base.{ℕ, ◌+◌, ◌*◌, ◌^◌, ◌≤◌, ◌<◌, ◌≡◌, arith}
use leviso.Artifact.Qcow2.{root_size_mb, efi_size_mb}

-- With a disk of at least two gigabytes, the EFI partition, the root partition and two megabytes
-- for the partition table fill the disk exactly. The size of the disk is a `u32`.
pub root_size_mb-fills :
    (disk_size_gb : ℕ)
    → 2 ≤ disk_size_gb
    → disk_size_gb < 2 ^ 32
    → root_size_mb disk_size_gb + efi_size_mb + 2 ≡ disk_size_gb * 1024
unfolding root_size_mb
root_size_mb-fills d low high = omega arith

-- With a disk of less than two gigabytes the subtraction wraps around: the root partition is
-- larger than any disk that a `u32` of gigabytes can name.
pub root_size_mb-wraps :
    (disk_size_gb other : ℕ)
    → disk_size_gb < 2
    → other < 2 ^ 32
    → other * 1024 < root_size_mb disk_size_gb
unfolding root_size_mb
root_size_mb-wraps d other low high = omega arith
