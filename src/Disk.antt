-- ===== src/Disk.antt =====
-- launcher/mac/main.go: the sparse data disk, `createSparseDataDisk`, `ensureDataDisk` and
-- `resizeDataDiskCmd`. Sizes are computed in int64, with its wrap-around. What the functions print
-- is left out.
pub mod Ensure
pub mod Resize
use exasol_local_vm.Prelude.{
  ℕ, ◌+◌, ◌*◌, ◌/◌, ◌^◌, Text, Bool, true, false, ◌&&◌, Option, none, some, ltb, if◌then◌else◌, ℤ,
  pos, negsuc, ltb_ℤ, leb_ℤ, eqb_ℤ, mul_int64, Result, ok, err,
}
use exasol_local_vm.Std.Strconv.{atoi}

-- A disk image: its length, and its bytes, which read as 0 where nothing was written.
pub record Disk : Type 0 where
  pub size : ℕ
  pub byte : ℕ → ℕ

-- Which of the calls on `data.img` succeed; `stat` fails otherwise than by a missing file.
pub record DiskCalls : Type 0 where
  pub stat : Bool
  pub create : Bool
  pub open_file : Bool
  pub truncate : Bool

pub data DiskError : Type 0 where
  create_failed truncate_failed stat_failed open_failed shrinking running bad_size not_found
        not_larger :
      DiskError

-- A call's error, and the file afterwards.
abbrev pub Outcome : Type 0
Outcome = Result DiskError (Unit {0}) × Option Disk

abbrev pub empty : Disk
empty = record { size = 0; byte = λ i. 0 }

-- A file of another length: what is cut off is lost, what is new reads as 0.
abbrev pub resized : ℕ → Disk → Disk
resized n d = record { size = n; byte = λ i. if ltb i n && ltb i d.size then d.byte i else 0 }

-- `File.Truncate`; a negative length is an error (EINVAL).
unfoldable pub truncate : DiskCalls → ℤ → Disk → Outcome
truncate os (pos n) d =
    if os.truncate then (ok tt, some (resized n d)) else (err truncate_failed, some d)
truncate os (negsuc n) d = (err truncate_failed, some d)

abbrev pub gib : ℕ
gib = 1024 * 1024 * 1024

-- `int64(sizeGB) * 1024 * 1024 * 1024`
unfoldable pub size_bytes : ℤ → ℤ
unfolding mul_int64
size_bytes size_gb = mul_int64 size_gb gib

-- `createSparseDataDisk`, where there is no file yet.
unfoldable pub create_sparse_data_disk : DiskCalls → ℤ → Outcome
create_sparse_data_disk os size_gb =
    if os.create then truncate os (size_bytes size_gb) empty else (err create_failed, none)

unfoldable pub grow : DiskCalls → ℤ → Disk → Outcome
grow os bytes d = if os.open_file then truncate os bytes d else (err open_failed, some d)

unfoldable pub ensure_existing : DiskCalls → ℤ → Disk → Outcome
ensure_existing os requested d =
    if eqb_ℤ (pos d.size) requested
    then (ok tt, some d)
    else if ltb_ℤ (pos d.size) requested
    then grow os requested d
    else (err shrinking, some d)

-- `ensureDataDisk`
unfoldable pub ensure_data_disk : DiskCalls → ℤ → Option Disk → Outcome
ensure_data_disk os size_gb file =
    if os.stat
    then (elim file [
      | none ↦ create_sparse_data_disk os size_gb
      | some d ↦ ensure_existing os (size_bytes size_gb) d
    ])
    else (err stat_failed, file)

-- Whole gibibytes, as the code compares them.
abbrev pub size_gib : Disk → ℕ
size_gib d = d.size / gib

unfoldable pub resize_existing : DiskCalls → ℤ → Disk → Outcome
resize_existing os new_size_gb d =
    if leb_ℤ new_size_gb (pos (size_gib d))
    then (err not_larger, some d)
    else grow os (size_bytes new_size_gb) d

unfoldable pub resize_parsed : DiskCalls → Option ℤ → Option Disk → Outcome
resize_parsed os none file = (err bad_size, file)
resize_parsed os (some new_size_gb) none =
    (if os.stat then err not_found else err stat_failed, none)
resize_parsed os (some new_size_gb) (some d) =
    if os.stat then resize_existing os new_size_gb d else (err stat_failed, some d)

-- `resizeDataDiskCmd`, given whether the VM runs.
unfoldable pub resize_data_disk_cmd : DiskCalls → Bool → Text → Option Disk → Outcome
resize_data_disk_cmd os is_running new_size file =
    if is_running then (err running, file) else resize_parsed os (atoi new_size) file
