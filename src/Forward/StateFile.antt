-- ===== src/Forward/StateFile.antt =====
-- launcher/mac/forward_commands.go: `saveForwardState` and `writeVMState`. A file holds its decoded
-- JSON: reading fails, decoding fails, or the content is `null` or an object.
pub mod Atomic
use exasol_local_vm.Prelude.{
  Text, codes, Bool, true, false, Option, none, some, if◌then◌else◌, ℤ, ℕ, Result, ok, err,
}
use exasol_local_vm.Prelude.Map.{Map, insert}

-- launcher/mac/forwarding.go
pub record ForwardState : Type 0 where
  pub host_ip : Text
  pub guest_port : ℤ
  pub host_port : ℕ

-- A value of the state object: raw JSON that is kept as it stands, or the forwards.
pub data Field : Type 0 where
  raw : Text → Field
  forwards : Map ForwardState → Field

pub data Content : Type 0 where
  missing malformed null : Content
  object : Map Field → Content

-- `vm-state.json`, and the temporary file beside it.
pub record Files : Type 0 where
  pub state_file : Content
  pub temp : Option Content

-- What the system calls of one write answer: whether each succeeds.
pub record FileCalls : Type 0 where
  pub read : Bool
  pub create_temp : Bool
  pub write : Bool
  pub chmod : Bool
  pub close : Bool
  pub rename : Bool
  pub remove : Bool

pub data FileError : Type 0 where
  cannot_read cannot_decode not_object create_temp_failed write_failed chmod_failed close_failed
        rename_failed :
      FileError

-- A failed write may leave a part of the text.
unfoldable pub fill_temp : FileCalls → Content → Files → Result FileError (Unit {0}) × Files
fill_temp os content f =
    if os.write
    then (if os.chmod
        then (if os.close
            then (if os.rename
                then (ok tt, record { state_file = content; temp = none })
                else (err rename_failed, record f { temp = some content }))
            else (err close_failed, record f { temp = some content }))
        else (err chmod_failed, record f { temp = some content }))
    else (err write_failed, record f { temp = some malformed })

-- The deferred `os.Remove` of the temporary file.
unfoldable pub remove_temp :
    FileCalls → Result FileError (Unit {0}) × Files → Result FileError (Unit {0}) × Files
remove_temp os (r, f) = (r, if os.remove then record f { temp = none } else f)

-- `writeVMState`
unfoldable pub write_vm_state : FileCalls → Content → Files → Result FileError (Unit {0}) × Files
unfolding fill_temp remove_temp
write_vm_state os content f =
    if os.create_temp then remove_temp os (fill_temp os content f) else (err create_temp_failed, f)

unfoldable pub update_content :
    FileCalls → Map ForwardState → Content → Files → Result FileError (Unit {0}) × Files
update_content os states missing f = (err cannot_read, f)
update_content os states malformed f = (err cannot_decode, f)
update_content os states null f = (err not_object, f)
update_content os states (object fields) f =
    write_vm_state os (object (insert (codes "forwards") (forwards states) fields)) f

-- `saveForwardState`, given the registry's states.
unfoldable pub save_forward_state :
    FileCalls → Map ForwardState → Files → Result FileError (Unit {0}) × Files
save_forward_state os states f =
    if os.read then update_content os states f.state_file f else (err cannot_read, f)
