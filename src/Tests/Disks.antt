-- ===== src/Tests/Disks.antt =====
-- launcher/mac/main.go: a data disk that grows.
use exasol_local_vm.Prelude.{
  codes, ◌≡◌, refl, ok, pos, some, true, false, is_ok, arith, ◌<◌, ◌^◌, ◌*◌, ◌+◌, mul_int64,
  of_bits,
}
use exasol_local_vm.Std.Strconv.{atoi}
use exasol_local_vm.Disk.{
  Disk, DiskCalls, resized, gib, truncate, size_bytes, grow, ensure_existing, ensure_data_disk,
  resize_existing, resize_parsed, resize_data_disk_cmd,
}
use exasol_local_vm.Disk.Ensure.{Grown, ensure_data_disk-Grown, ensure_data_disk_failed}
use exasol_local_vm.Disk.Resize.{resize_data_disk_cmd-Grown, resize_data_disk_cmd_wraps}

abbrev pub calls : DiskCalls
calls = record { stat = true; create = true; open_file = true; truncate = true }

-- 20 GB of sevens.
abbrev old_disk : Disk
old_disk = record { size = 20 * gib; byte = λ i. 7 }

grows : is_ok (ensure_data_disk calls (pos 50) (some old_disk)).0 ≡ true
unfolding ensure_data_disk ensure_existing grow truncate size_bytes mul_int64 of_bits
grows = refl

ensure_data_disk-Grown_example :
    Grown (some old_disk) (50 * gib) (ensure_data_disk calls (pos 50) (some old_disk)).1
ensure_data_disk-Grown_example = ensure_data_disk-Grown calls 50 (some old_disk) (omega arith) grows

refuses : is_ok (ensure_data_disk calls (pos 10) (some old_disk)).0 ≡ false
unfolding ensure_data_disk ensure_existing grow truncate size_bytes mul_int64 of_bits
refuses = refl

ensure_data_disk_failed_example :
    (ensure_data_disk calls (pos 10) (some old_disk)).1 ≡ some old_disk
ensure_data_disk_failed_example = ensure_data_disk_failed calls (pos 10) old_disk refuses

fifty : atoi (codes "50") ≡ some (pos 50)
unfolding atoi
fifty = refl

resizes : is_ok (resize_data_disk_cmd calls false (codes "50") (some old_disk)).0 ≡ true
unfolding resize_data_disk_cmd resize_parsed resize_existing grow truncate size_bytes mul_int64
    of_bits atoi
resizes = refl

resize_data_disk_cmd-Grown_example :
    Grown
      (some old_disk)
      (50 * gib)
      (resize_data_disk_cmd calls false (codes "50") (some old_disk)).1
    × (20 * gib < 50 * gib)
resize_data_disk_cmd-Grown_example =
    resize_data_disk_cmd-Grown calls false (codes "50") 50 old_disk fifty (omega arith) resizes

refuses_running : is_ok (resize_data_disk_cmd calls true (codes "50") (some old_disk)).0 ≡ false
unfolding resize_data_disk_cmd
refuses_running = refl

-- 2 ^ 34 + 1
huge : atoi (codes "17179869185") ≡ some (pos (2 ^ 34 + 1))
unfolding atoi
huge = refl

resize_data_disk_cmd_wraps_example :
    resize_data_disk_cmd calls false (codes "17179869185") (some old_disk)
    ≡ (ok tt, some (resized (1 * gib) old_disk))
resize_data_disk_cmd_wraps_example =
    resize_data_disk_cmd_wraps calls (codes "17179869185") 1 old_disk huge (omega arith)
      (omega arith) refl refl refl
