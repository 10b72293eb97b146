-- ===== src/Disk/Resize.antt =====
-- `resizeDataDiskCmd` grows the disk, unless the new size in bytes wraps around in int64.
use exasol_local_vm.Prelude.{
  ℕ, ◌+◌, ◌*◌, ◌^◌, ◌<◌, Text, Bool, true, false, Option, none, some, ℤ, pos, leb_ℤ, of_bits, ok,
  is_ok, ◌≡◌, refl, arith, if_cases,
}
use exasol_local_vm.Std.Strconv.{atoi}
use exasol_local_vm.Disk.{
  Disk, DiskCalls, Outcome, resized, truncate, gib, size_gib, size_bytes, grow, resize_existing,
  resize_parsed, resize_data_disk_cmd,
}
use exasol_local_vm.Disk.Ensure.{Grown, size_bytes-exact, grow-Grown, grow_failed}

abbrev Larger : ℕ → Disk → Outcome → Type 0
Larger n d o = is_ok o.0 ≡ true → Grown (some d) (n * gib) o.1 × (d.size < n * gib)

resize_existing-Larger :
    (os : DiskCalls) (n : ℕ) (d : Disk) → n < 2 ^ 33 → Larger n d (resize_existing os (pos n) d)
unfolding resize_existing
resize_existing-Larger os n d b =
    if_cases (Larger n d) (leb_ℤ (pos n) (pos (size_gib d))) (λ _ h. cc)
      λ more.
        let larger : d.size < n * gib = ground arith in
        rw (size_bytes-exact n b) (λ h. (grow-Grown os (n * gib) d (omega arith) h, larger))

resize_parsed-Larger :
    (os : DiskCalls) (n : ℕ) (d : Disk)
    → n < 2 ^ 33
    → Larger n d (resize_parsed os (some (pos n)) (some d))
unfolding resize_parsed
resize_parsed-Larger os n d b =
    if_cases (Larger n d) os.stat (λ _. resize_existing-Larger os n d b) (λ _ h. cc)

-- A resize to n GB, n below 2^33, that succeeds makes the disk strictly larger, exactly n GB long, and
-- keeps every byte.
pub resize_data_disk_cmd-Grown :
    (os : DiskCalls) (is_running : Bool) (new_size : Text) (n : ℕ) (d : Disk)
    → atoi new_size ≡ some (pos n)
    → n < 2 ^ 33
    → is_ok (resize_data_disk_cmd os is_running new_size (some d)).0 ≡ true
    → Grown (some d) (n * gib) (resize_data_disk_cmd os is_running new_size (some d)).1
      × (d.size < n * gib)
unfolding resize_data_disk_cmd
resize_data_disk_cmd-Grown os is_running new_size n d p b =
    if_cases (Larger n d) is_running (λ _ h. cc) (λ _. rw p (resize_parsed-Larger os n d b))

resize_existing_failed :
    (os : DiskCalls) (g : ℤ) (d : Disk)
    → is_ok (resize_existing os g d).0 ≡ false
    → (resize_existing os g d).1 ≡ some d
unfolding resize_existing
resize_existing_failed os g d h = ground (arith, grow_failed os (size_bytes g) d)

resize_parsed_failed :
    (os : DiskCalls) (g : Option ℤ) (file : Option Disk)
    → is_ok (resize_parsed os g file).0 ≡ false
    → (resize_parsed os g file).1 ≡ file
unfolding resize_parsed
resize_parsed_failed os none file h = refl
resize_parsed_failed os (some g) none h = refl
resize_parsed_failed os (some g) (some d) h = ground (arith, resize_existing_failed os g d)

-- A resize that fails, for whatever reason, leaves the file as it was; so does one of a running VM.
pub resize_data_disk_cmd_failed :
    (os : DiskCalls) (is_running : Bool) (new_size : Text) (file : Option Disk)
    → is_ok (resize_data_disk_cmd os is_running new_size file).0 ≡ false
    → (resize_data_disk_cmd os is_running new_size file).1 ≡ file
unfolding resize_data_disk_cmd
resize_data_disk_cmd_failed os is_running new_size file h =
    ground (arith, resize_parsed_failed os (atoi new_size) file)

size_bytes-wraps : (k : ℕ) → k < 2 ^ 33 → size_bytes (pos (2 ^ 34 + k)) ≡ pos (k * gib)
unfolding size_bytes of_bits
size_bytes-wraps k h = ground arith

-- From 2^34 GB on the length in bytes wraps around: a resize to 2^34 + k GB, with k below 2^33, of a
-- disk of less than 2^63 bytes is accepted, and leaves k GB of it.
pub resize_data_disk_cmd_wraps :
    (os : DiskCalls) (new_size : Text) (k : ℕ) (d : Disk)
    → atoi new_size ≡ some (pos (2 ^ 34 + k))
    → k < 2 ^ 33
    → d.size < 2 ^ 63
    → os.stat ≡ true
    → os.open_file ≡ true
    → os.truncate ≡ true
    → resize_data_disk_cmd os false new_size (some d) ≡ (ok tt, some (resized (k * gib) d))
unfolding resize_data_disk_cmd resize_parsed resize_existing grow truncate
resize_data_disk_cmd_wraps os new_size k d p b s h1 h2 h3 =
    rw (p, h1, size_bytes-wraps k b) (ground arith)
