-- ===== src/Boot/Devices.antt =====
-- launcher/mac/main.go, `runVMDaemon`: the devices of the virtual machine. Whether a call of vz succeeds
-- is an argument.
use exasol_local_vm.Prelude.{
  ℕ, ◌-◌, ◌*◌, ◌%◌, ◌^◌, Text, codes, Bool, List, [], ◌∷◌, Option, none, some, if◌then◌else◌, ℤ,
  pos, negsuc, Result, ok, err, ◌>>=◌, ◌>>◌, guard,
}

pub record VzCalls : Type 0 where
  pub load_store : Bool
  pub create_store : Bool
  pub boot_loader : Bool
  pub serial_attachment : Bool
  pub serial_port : Bool
  pub disk_attachment : Text → Bool
  pub block_device : Text → Bool
  pub nat_attachment : Bool
  pub network_device : Bool
  pub entropy_device : Bool
  pub shared_directory : Text → Bool
  pub directory_share : Bool
  pub file_system_device : Bool
  pub configuration : ℕ → ℕ → Bool
  pub validate : Option Bool
  pub machine : Bool
  pub start : Bool

pub data DeviceError : Type 0 where
  no_store no_boot_loader no_serial_attachment no_serial_port no_network no_entropy no_share :
      DeviceError
  no_disk : Text → DeviceError
  no_configuration not_validated invalid : DeviceError

-- The EFI variable store is created if its file is not there.
pub data Store : Type 0 where
  loaded created : Store

unfoldable pub boot_loader : VzCalls → Bool → Result DeviceError Store
boot_loader vz exists = do
  guard (if exists then vz.load_store else vz.create_store) no_store
  guard vz.boot_loader no_boot_loader
  ok (if exists then loaded else created)

unfoldable pub serial_port : VzCalls → Result DeviceError (Unit {0})
serial_port vz = do
  guard vz.serial_attachment no_serial_attachment
  guard vz.serial_port no_serial_port

unfoldable pub block_device : VzCalls → Text → Result DeviceError Text
block_device vz path = do
  guard (vz.disk_attachment path) (no_disk path)
  guard (vz.block_device path) (no_disk path)
  ok path

-- The data disk comes first, where there is one.
unfoldable pub storage : VzCalls → Option Text → Text → Result DeviceError (List Text)
unfolding block_device
storage vz none disk_path = do boot ← block_device vz disk_path; ok (boot ∷ [])
storage vz (some data_path) disk_path = do
  first ← block_device vz data_path
  boot ← block_device vz disk_path
  ok (first ∷ boot ∷ [])

unfoldable pub network : VzCalls → Result DeviceError (Unit {0})
network vz = do
  guard vz.nat_attachment no_network
  guard vz.network_device no_network
  guard vz.entropy_device no_entropy

unfoldable pub share : VzCalls → Text → Result DeviceError (Text × Text)
share vz path = do
  guard (vz.shared_directory path) no_share
  guard vz.directory_share no_share
  guard vz.file_system_device no_share
  ok (codes "hostshare", path)

-- `uint(cpuCount)`: the bits of an int64, read without a sign.
unfoldable pub to_uint64 : ℤ → ℕ
to_uint64 (pos n) = n % 2 ^ 64
to_uint64 (negsuc n) = 2 ^ 64 - 1 - n % 2 ^ 64

-- `ramSize*1024*1024` on 64 bits.
unfoldable pub megabytes : ℕ → ℕ
megabytes n = (n * (1024 * 1024)) % 2 ^ 64

-- The configuration that the machine is made from.
pub record VmConfig : Type 0 where
  pub store : Store
  pub cpu_count : ℕ
  pub memory : ℕ
  pub disks : List Text
  pub share : Text × Text

unfoldable pub validated : Option Bool → Result DeviceError (Unit {0})
validated none = err not_validated
validated (some valid) = guard valid invalid

unfoldable pub configure :
    VzCalls → Store → ℤ → ℕ → List Text → Text × Text → Result DeviceError VmConfig
unfolding validated
configure vz store cpu_count ram_size disks share = do
  guard (vz.configuration (to_uint64 cpu_count) (megabytes ram_size)) no_configuration
  validated vz.validate
  ok (record {
    store = store;
    cpu_count = to_uint64 cpu_count;
    memory = megabytes ram_size;
    disks = disks;
    share = share;
  })
