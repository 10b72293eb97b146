-- ===== src/Forward/Lifecycle/Collect.antt =====
-- The startup loop and the state file: which forwards the loop has listed so far, and what is written.
use exasol_local_vm.Prelude.{
  ℕ, Text, text_eq_iff, codes, false, List, [], ◌∷◌, ◌++◌, none, some, ◌≡◌, refl, append_assoc, ◌∙◌,
  ◌⊎◌, arith, pos, All, All-map, Result, is_ok, if◌then◌else◌, All-append,
}
use exasol_local_vm.Prelude.Map.{Map, lookup, insert, lookup-insert, lookup-insert_self}
use exasol_local_vm.Forward.Spec.{ForwardSpec, has_name}
use exasol_local_vm.Forward.StateFile.{ForwardState, forwards, object, Files, FileCalls, FileError}
use exasol_local_vm.Forward.StateFile.Atomic.{write_vm_state-file}
use exasol_local_vm.Forward.Registry.{Forwarder, Daemon, close_all, close_forwarders}
use exasol_local_vm.Forward.Lifecycle.{loopback_ip, Facts, write_healthy}

-- A state of the forward that a spec asks for: at the guest's port asked for, and at the host's port
-- asked for, or any if it was 0.
pub record Lists (states : Map ForwardState) (spec : ForwardSpec) : Type 0 where
  pub port : ℕ
  pub listed :
      lookup spec.name states
      ≡ some (record { host_ip = loopback_ip; guest_port = spec.guest_port; host_port = port })
  pub asked : (spec.host_port ≡ pos 0) ⊎ (spec.host_port ≡ pos port)

-- The startup loop: the specs done are listed, and those left are not.
pub record Collected (specs rest : List ForwardSpec) (states : Map ForwardState) : Type 0 where
  pub done : List ForwardSpec
  pub whole : (done ++ rest) ≡ specs
  pub kept : All (Lists states) done
  pub unused : All (λ spec. lookup spec.name states ≡ none) rest

pub close_all-files : (m : Map Forwarder) (d : Daemon) → (close_all m d).files ≡ d.files
unfolding close_all
close_all-files [] d = refl
close_all-files ((name, f) ∷ m) d = close_all-files m _

pub close_forwarders-files : (d : Daemon) → (close_forwarders d).files ≡ d.files
unfolding close_forwarders
close_forwarders-files d = close_all-files d.registry _

pub write_healthy-file :
    (os : FileCalls) (facts : Facts) (states : Map ForwardState) (f g : Files)
    (r : Result FileError (Unit {0}))
    → write_healthy os facts states f ≡ (r, g)
    → g.state_file ≡ (
        if is_ok r
        then object (insert (codes "forwards") (forwards states) facts)
        else f.state_file)
unfolding write_healthy
write_healthy-file os facts states f g r h = ground (
  arith,
  h,
  write_vm_state-file os (object (insert (codes "forwards") (forwards states) facts)) f,
)

pub Lists-insert :
    (k : Text) (v : ForwardState) (states : Map ForwardState) (spec : ForwardSpec)
    → lookup k states ≡ none
    → Lists states spec
    → Lists (insert k v states) spec
Lists-insert k v states spec absent h = record {
  port = h.port;
  listed = ground (arith, lookup-insert spec.name k v states, h.listed, text_eq_iff spec.name k);
  asked = h.asked;
}

pub unused_after :
    (name : Text) (v : ForwardState) (states : Map ForwardState) (rest : List ForwardSpec)
    → has_name name rest ≡ false
    → All (λ spec. lookup spec.name states ≡ none) rest
    → All (λ spec. lookup spec.name (insert name v states) ≡ none) rest
unfolding has_name
unused_after name v states [] h x = tt
unused_after name v states (spec ∷ rest) h (x, xs) = (
  ground (arith, lookup-insert spec.name name v states, text_eq_iff spec.name name),
  unused_after name v states rest (ground arith) xs,
)

pub Collected-after :
    (specs rest : List ForwardSpec) (states : Map ForwardState) (spec : ForwardSpec) (port : ℕ)
    → has_name spec.name rest ≡ false
    → ((spec.host_port ≡ pos 0) ⊎ (spec.host_port ≡ pos port))
    → Collected specs (spec ∷ rest) states
    → Collected specs rest (
        insert spec.name
          (record { host_ip = loopback_ip; guest_port = spec.guest_port; host_port = port })
          states)
Collected-after specs rest states spec port new asked c =
    let v : ForwardState = record {
      host_ip = loopback_ip;
      guest_port = spec.guest_port;
      host_port = port;
    } in
    record {
      done = c.done ++ (spec ∷ []);
      whole = append_assoc c.done (spec ∷ []) rest ∙ c.whole;
      kept =
          All-append (Lists (insert spec.name v states)) c.done (spec ∷ [])
            (All-map (Lists states) (Lists (insert spec.name v states))
              (λ x. Lists-insert spec.name v states x c.unused.0) c.done c.kept)
            (
              record { port = port; listed = lookup-insert_self spec.name v states; asked = asked },
              tt,
            );
      unused = unused_after spec.name v states rest new c.unused.1;
    }
