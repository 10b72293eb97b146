-- ===== src/Forward/Registry/Requests.antt =====
-- Every live request keeps the registry well-formed, on every branch and whatever the system answers.
use exasol_local_vm.Prelude.{
  ℕ, zero, suc, Text, Bool, true, false, none, some, ◌≡◌, refl, ◌⊎◌, inl, inr, arith, ℤ, pos,
  negsuc, ◌≤ℤ◌,
}
use exasol_local_vm.Prelude.Map.{lookup, lookup-insert_self}
use exasol_local_vm.Std.Net.Canonical.{canonical_loopback_idem}
use exasol_local_vm.Forward.Spec.RoundTrip.{parse_forward_spec_iff}
use exasol_local_vm.Forward.StateFile.{Files}
use exasol_local_vm.Forward.Registry.{
  Forwarder, Daemon, opened, Os, ForwardRequest, Reply, close_forwarder, register_forwarder,
  unregister, save, commit_add, add_forward, remove_forward, update_forward, handle_if,
  handle_forward_request, respond,
}
use exasol_local_vm.Forward.Registry.Cases.{
  new_of, commit_add_cases, add_forward_cases, remove_forward_cases, update_forward_cases,
}
use exasol_local_vm.Forward.Registry.WellFormed.{
  IsEntry, WellFormed, register-WellFormed, unregister-WellFormed, restore-WellFormed,
}

-- What `net.Listen` documents: a port other than 0 is the port that is bound.
abbrev pub BindsExactly : Os → Type 0
BindsExactly os = (ip : Text) (p q : ℕ) → os.listen ip (pos (suc p)) ≡ some q → q ≡ suc p

pub files-WellFormed : (d : Daemon) (f : Files) → WellFormed d → WellFormed (record d { files = f })
files-WellFormed d f w = record {
  distinct = w.distinct;
  entries = w.entries;
  listeners = w.listeners;
}

save-WellFormed : (os : Os) (d : Daemon) → WellFormed d → WellFormed (save os d).1
unfolding save
save-WellFormed os d w = record {
  distinct = w.distinct;
  entries = w.entries;
  listeners = w.listeners;
}

pub exact_port :
    (os : Os) (ip : Text) (p : ℤ) (q : ℕ)
    → BindsExactly os
    → pos 0 ≤ℤ p
    → os.listen ip p ≡ some q
    → (p ≡ pos 0) ⊎ (p ≡ pos q)
exact_port os ip (pos zero) q x l h = inl refl
exact_port os ip (pos (suc n)) q x l h = inr (ground (arith, x ip n q))
exact_port os ip (negsuc n) q x l h = absurd (omega arith)

module _ (os : Os) (d : Daemon) (w : WellFormed d) where
  commit_add-WellFormed :
      (f : Forwarder)
      → f.id ≡ d.next_id
      → lookup f.name d.registry ≡ none
      → IsEntry (suc d.next_id) (f.name, f)
      → WellFormed (commit_add os f (opened d)).1
  unfolding save
  commit_add-WellFormed f i h v =
      let saved = save-WellFormed os _ (register-WellFormed f d w i h v) in
      commit_add_cases (λ r. WellFormed r.1) os f (opened d) (λ _. saved)
        (λ e _.
          unregister-WellFormed f.name f _ saved
            (unfold register_forwarder in lookup-insert_self f.name f d.registry))

  add_forward-WellFormed :
      (req : ForwardRequest) → BindsExactly os → WellFormed (add_forward os req d).1
  add_forward-WellFormed req x =
      add_forward_cases (λ r. WellFormed r.1) os req d (λ e n. w) (λ spec ip f a e s. w)
        λ spec ip port a e l.
          let v = ((parse_forward_spec_iff _ spec).0 a.parsed).0 in
          commit_add-WellFormed (new_of d spec ip port) refl e (record {
            keyed = refl;
            valid = v;
            loopback = canonical_loopback_idem _ a.address;
            exact = exact_port os ip spec.host_port port x v.host_low l;
            old = omega arith;
          })

  remove_forward-WellFormed : (name : Text) → WellFormed (remove_forward os name d).1
  unfolding save unregister register_forwarder close_forwarder
  remove_forward-WellFormed name =
      remove_forward_cases (λ r. WellFormed r.1) os name d (λ _. w)
        (λ f e h _. files-WellFormed _ _ (restore-WellFormed name f d w h))
        (λ f h _. files-WellFormed _ _ (unregister-WellFormed name f d w h))

pub respond-state : (r : Reply) → (respond r).1 ≡ r.1
respond-state (none, d) = refl
respond-state (some e, d) = refl

pub update_forward-WellFormed :
    (os : Os) (req : ForwardRequest) (d : Daemon)
    → BindsExactly os
    → WellFormed d
    → WellFormed (update_forward os req d).1
update_forward-WellFormed os req d x w =
    update_forward_cases (λ r. WellFormed r.1) os req d (λ _. w)
      (λ _. add_forward-WellFormed os d w req x) (λ _. remove_forward-WellFormed os d w req.name) w

handle_if-WellFormed :
    (b : Bool) (os : Os) (req : ForwardRequest) (d : Daemon)
    → BindsExactly os
    → WellFormed d
    → WellFormed (handle_if b os req d).1
unfolding handle_if
handle_if-WellFormed false os req d x w = w
handle_if-WellFormed true os req d x w =
    rw (respond-state (update_forward os req d)) (update_forward-WellFormed os req d x w)

-- Every request, with any answers of the system, keeps the registry well-formed: no listener is
-- open that is not registered, and none registered that is not open.
pub handle_forward_request-WellFormed :
    (os : Os) (req : ForwardRequest) (d : Daemon)
    → BindsExactly os
    → WellFormed d
    → WellFormed (handle_forward_request os req d).1
unfolding handle_forward_request
handle_forward_request-WellFormed os req d x w = handle_if-WellFormed d.ready os req d x w
