-- ===== src/Forward/StateFile/Atomic.antt =====
-- The state file is replaced whole or not at all.
use exasol_local_vm.Prelude.{
  Text, codes, text_eq, Bool, true, false, Option, none, some, if◌then◌else◌, is_ok, ◌&&◌, ◌≡◌,
  refl, ◌⊎◌, arith,
}
use exasol_local_vm.Prelude.Map.{Map, insert, lookup, lookup-insert}
use exasol_local_vm.Forward.StateFile.{
  ForwardState, Field, forwards, Content, object, Files, FileCalls, write_vm_state, update_content,
  save_forward_state,
}

-- The value of a key in the state object.
abbrev pub entry : Text → Content → Option Field
entry k (object fields) = lookup k fields
entry k _ = none

abbrev is_object : Content → Bool
is_object (object fields) = true
is_object _ = false

pub write_vm_state-file :
    (os : FileCalls) (c : Content) (f : Files)
    → (write_vm_state os c f).1.state_file
      ≡ (if is_ok (write_vm_state os c f).0 then c else f.state_file)
unfolding write_vm_state
write_vm_state-file os c f = ground arith

update_atomic :
    (os : FileCalls) (states : Map ForwardState) (c : Content) (f : Files) (k : Text)
    → f.state_file ≡ c
    → let o = update_content os states c f in
      (is_ok o.0 ≡ true)
        × (entry k o.1.state_file
            ≡ (if text_eq k (codes "forwards") then some (forwards states) else entry k c))
      ⊎ (is_ok o.0 ≡ false) × (o.1.state_file ≡ c)
unfolding update_content
update_atomic os states (object fields) f k e = ground (
  arith,
  lookup-insert k (codes "forwards") (forwards states) fields,
  write_vm_state-file os (object (insert (codes "forwards") (forwards states) fields)) f,
)
update_atomic os states _ f k e = ground arith

-- A save that succeeds sets the key `forwards` to the given states and keeps every other key; a save
-- that fails leaves the file as it was.
pub save_atomic :
    (os : FileCalls) (states : Map ForwardState) (f : Files) (k : Text)
    → let o = save_forward_state os states f in
      (is_ok o.0 ≡ true)
        × (entry k o.1.state_file ≡ (
            if text_eq k (codes "forwards") then some (forwards states) else entry k f.state_file))
      ⊎ (is_ok o.0 ≡ false) × (o.1.state_file ≡ f.state_file)
unfolding save_forward_state
save_atomic os states f k = ground (arith, update_atomic os states f.state_file f k refl)

-- A save succeeds exactly when the file holds a JSON object and every call on it succeeds.
pub save-is_ok :
    (os : FileCalls) (states : Map ForwardState) (f : Files)
    → is_ok (save_forward_state os states f).0 ≡ (
        os.read
        && is_object f.state_file
        && os.create_temp
        && os.write
        && os.chmod
        && os.close
        && os.rename)
unfolding save_forward_state update_content write_vm_state
save-is_ok os states f = ground arith

-- No temporary file is left, whether or not the save succeeds.
pub save-temp :
    (os : FileCalls) (states : Map ForwardState) (f : Files)
    → os.remove ≡ true
    → f.temp ≡ none
    → (save_forward_state os states f).1.temp ≡ none
unfolding save_forward_state update_content write_vm_state
save-temp os states f r h = ground arith
