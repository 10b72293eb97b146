-- ===== src/Disk/Ensure.antt =====
-- `ensureDataDisk` gives a disk of the requested size, keeps what is on it, and never shrinks it.
use exasol_local_vm.Prelude.{
  ℕ, ◌*◌, ◌^◌, ◌<◌, ◌≤◌, true, false, Option, none, some, ℤ, pos, negsuc, ltb_ℤ, eqb_ℤ, of_bits, ok,
  is_ok, ◌≡◌, refl, arith, if_cases,
}
use exasol_local_vm.Disk.{
  Disk, DiskCalls, Outcome, truncate, gib, size_bytes, create_sparse_data_disk, grow,
  ensure_existing, ensure_data_disk, empty,
}

-- The bytes of a disk, zero in a missing one.
abbrev pub contents : Option Disk → ℕ → ℕ
contents none i = 0
contents (some d) i = d.byte i

abbrev pub file_size : Option Disk → ℕ
file_size none = 0
file_size (some d) = d.size

-- Sizes below 2^33 GB do not wrap around.
pub size_bytes-exact : (n : ℕ) → n < 2 ^ 33 → size_bytes (pos n) ≡ pos (n * gib)
unfolding size_bytes of_bits
size_bytes-exact n h = ground arith

-- A file keeps all that fits into its new length.
pub record Grown (before : Option Disk) (n : ℕ) (after : Option Disk) : Type 0 where
  pub present : (d : Disk) × (after ≡ some d)
  pub sized : file_size after ≡ n
  pub not_shrunk : file_size before ≤ n
  pub kept : (i : ℕ) → i < file_size before → contents after i ≡ contents before i

abbrev IfOk : Option Disk → ℕ → Outcome → Type 0
IfOk before n o = is_ok o.0 ≡ true → Grown before n o.1

module _ (os : DiskCalls) where
  truncate-Grown : (n : ℕ) (d : Disk) → d.size ≤ n → IfOk (some d) n (truncate os (pos n) d)
  unfolding truncate
  truncate-Grown n d le =
      if_cases (IfOk (some d) n) os.truncate
        (λ _ _. record {
          present = (_, refl);
          sized = refl;
          not_shrunk = le;
          kept = λ i lt. ground arith;
        })
        (λ _ h. cc)

  pub grow-Grown : (n : ℕ) (d : Disk) → d.size ≤ n → IfOk (some d) n (grow os (pos n) d)
  unfolding grow
  grow-Grown n d le =
      if_cases (IfOk (some d) n) os.open_file (λ _. truncate-Grown n d le) (λ _ h. cc)

  pub grow_failed : (b : ℤ) (d : Disk) → is_ok (grow os b d).0 ≡ false → (grow os b d).1 ≡ some d
  unfolding grow truncate
  grow_failed (pos n) d h = ground arith
  grow_failed (negsuc n) d h = ground arith

  create-Grown : (n : ℕ) → n < 2 ^ 33 → IfOk none (n * gib) (create_sparse_data_disk os (pos n))
  unfolding create_sparse_data_disk
  create-Grown n b =
      if_cases (IfOk none (n * gib)) os.create
        (λ _. rw (size_bytes-exact n b) λ h.
          let g = truncate-Grown (n * gib) empty (omega arith) h in
          record {
            present = g.present;
            sized = g.sized;
            not_shrunk = omega arith;
            kept = λ i lt. absurd (omega arith);
          })
        (λ _ h. cc)

  existing-Grown : (n : ℕ) (d : Disk) → IfOk (some d) n (ensure_existing os (pos n) d)
  unfolding ensure_existing
  existing-Grown n d =
      if_cases (IfOk (some d) n) (eqb_ℤ (pos d.size) (pos n))
        (λ same h. record {
          present = (d, refl);
          sized = ground arith;
          not_shrunk = ground arith;
          kept = λ i lt. refl;
        })
        (λ _.
          if_cases (IfOk (some d) n) (ltb_ℤ (pos d.size) (pos n))
            (λ less. grow-Grown n d (ground arith)) (λ _ h. cc))

  existing_failed :
      (b : ℤ) (d : Disk)
      → is_ok (ensure_existing os b d).0 ≡ false
      → (ensure_existing os b d).1 ≡ some d
  unfolding ensure_existing
  existing_failed b d h = ground (arith, grow_failed b d)

  -- If the data disk is ensured at n GB, n below 2^33, it then has that size, it is not smaller than
  -- before, and every byte that was on it is still there.
  pub ensure_data_disk-Grown :
      (n : ℕ) (file : Option Disk)
      → n < 2 ^ 33
      → is_ok (ensure_data_disk os (pos n) file).0 ≡ true
      → Grown file (n * gib) (ensure_data_disk os (pos n) file).1
  unfolding ensure_data_disk
  ensure_data_disk-Grown n none b =
      if_cases (IfOk none (n * gib)) os.stat (λ _. create-Grown n b) (λ _ h. cc)
  ensure_data_disk-Grown n (some d) b =
      if_cases (IfOk (some d) (n * gib)) os.stat
        (λ _. rw (size_bytes-exact n b) (existing-Grown (n * gib) d)) (λ _ h. cc)

  -- If ensuring the data disk fails, for whatever size, a disk that was there is left as it was.
  pub ensure_data_disk_failed :
      (size_gb : ℤ) (d : Disk)
      → is_ok (ensure_data_disk os size_gb (some d)).0 ≡ false
      → (ensure_data_disk os size_gb (some d)).1 ≡ some d
  unfolding ensure_data_disk
  ensure_data_disk_failed size_gb d h = ground (arith, existing_failed (size_bytes size_gb) d)

existing_again :
    (os : DiskCalls) (n : ℕ) (d : Disk)
    → d.size ≡ n
    → ensure_existing os (pos n) d ≡ (ok tt, some d)
unfolding ensure_existing
existing_again os n d h = ground arith

-- Once ensured at n GB, the disk is left alone by every later start with the same size.
pub ensure_data_disk_again :
    (os os' : DiskCalls) (n : ℕ) (file : Option Disk)
    → n < 2 ^ 33
    → is_ok (ensure_data_disk os (pos n) file).0 ≡ true
    → os'.stat ≡ true
    → let after = (ensure_data_disk os (pos n) file).1 in
      ensure_data_disk os' (pos n) after ≡ (ok tt, after)
unfolding ensure_data_disk
ensure_data_disk_again os os' n file b h s =
    let g = ensure_data_disk-Grown os n file b h in
    let (d, e) = g.present in let size : d.size ≡ n * gib = rw e at g.sized in rw e (again d size)
  where
    again : (d : Disk) → d.size ≡ n * gib → ensure_data_disk os' (pos n) (some d) ≡ (ok tt, some d)
    again d e =
        rw (s, ensure_data_disk) (rw (size_bytes-exact n b) (existing_again _ (n * gib) d e))
