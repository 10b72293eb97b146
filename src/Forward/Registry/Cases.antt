-- ===== src/Forward/Registry/Cases.antt =====
-- The ways that a live request can go: to prove something of its reply, prove it of each.
use exasol_local_vm.Prelude.{
  ℕ, Text, text_eq, codes, true, none, some, ◌≡◌, ◌≢◌, refl, inl, inr, Result, ok, err,
  Option-cases, if_cases, Result-cases, if◌then◌else◌,
}
use exasol_local_vm.Prelude.Map.{lookup}
use exasol_local_vm.Std.Net.{canonical_loopback}
use exasol_local_vm.Forward.Spec.{ForwardSpec, parse_forward_spec}
use exasol_local_vm.Forward.StateFile.{FileError}
use exasol_local_vm.Forward.Registry.{
  Forwarder, Daemon, Os, ForwardError, not_saved, close_failed, unknown_request, invalid,
  ForwardRequest, text_of, Reply, opened, start_forwarder, close_forwarder, register_forwarder,
  unregister, save, finish_add, commit_add, add_new, add_checked, same_settings, add_forward,
  finish_remove, commit_remove, remove_forward, update_forward, or_default,
}

-- A request to add whose settings are valid, and what they are.
pub record Accepted (req : ForwardRequest) (spec : ForwardSpec) (ip : Text) : Type 0 where
  pub parsed : parse_forward_spec (text_of req) ≡ ok spec
  pub address : canonical_loopback (or_default req.host_ip) ≡ some ip

abbrev pub new_of : Daemon → ForwardSpec → Text → ℕ → Forwarder
new_of d spec ip port = record {
  id = d.next_id;
  name = spec.name;
  host_ip = ip;
  requested_port = spec.host_port;
  guest_host = d.guest_host;
  guest_port = spec.guest_port;
  port = port;
}

module _ {κ} (P : Reply → Type κ) (os : Os) where
  pub commit_add_cases :
      (f : Forwarder) (d : Daemon)
      → let o = save os (register_forwarder f.name f d) in
        (o.0 ≡ ok tt → P (none, o.1))
        → ((e : FileError)
            → o.0 ≡ err e
            → P (some (not_saved e), close_forwarder f (unregister f.name o.1)))
        → P (commit_add os f d)
  unfolding commit_add
  commit_add_cases f d = go (save os (register_forwarder f.name f d))
    where
      go :
          (o : Result FileError (Unit {0}) × Daemon)
          → (o.0 ≡ ok tt → P (none, o.1))
          → ((e : FileError)
              → o.0 ≡ err e
              → P (some (not_saved e), close_forwarder f (unregister f.name o.1)))
          → P (finish_add f o)
      go (ok tt, d') good bad = unfold finish_add in good refl
      go (err e, d') good bad = unfold finish_add in bad e refl

  pub add_forward_cases :
      (req : ForwardRequest) (d : Daemon)
      → ((e : ForwardError) → e ≢ close_failed → P (some e, d))
      → ((spec : ForwardSpec) (ip : Text) (f : Forwarder)
          → Accepted req spec ip
          → lookup spec.name d.registry ≡ some f
          → same_settings f spec ip ≡ true
          → P (none, d))
      → ((spec : ForwardSpec) (ip : Text) (port : ℕ)
          → Accepted req spec ip
          → lookup spec.name d.registry ≡ none
          → os.listen ip spec.host_port ≡ some port
          → P (commit_add os (new_of d spec ip port) (opened d)))
      → P (add_forward os req d)
  unfolding add_forward
  add_forward_cases req d failed found new =
      elim (Result-cases (parse_forward_spec (text_of req))) [
        | inr (e, p) ↦ rw (p, add_forward) (failed (invalid e) (cc))
        | inl (spec, p) ↦ elim (Option-cases (canonical_loopback (or_default req.host_ip))) [
          | inl c ↦ rw (p, c, add_forward) (failed _ (cc))
          | inr (ip, c) ↦
              rw (p, c, add_forward) (checked spec ip (record { parsed = p; address = c }))
        ]
      ]
    where
      checked :
          (spec : ForwardSpec) (ip : Text) → Accepted req spec ip → P (add_checked os spec ip d)
      checked spec ip a = elim (Option-cases (lookup spec.name d.registry)) [
        | inr (f, e) ↦
            unfold add_checked in
            rw (e, add_checked)
              (if_cases P (same_settings f spec ip) (found spec ip f a e) (λ _. failed _ (cc)))
        | inl e ↦
            unfold add_checked add_new start_forwarder in
            rw (e, add_checked)
              (elim (Option-cases (os.listen ip spec.host_port)) [
                | inl l ↦ rw (l, add_new, start_forwarder) (failed _ (cc))
                | inr (port, l) ↦ rw (l, add_new, start_forwarder) (new spec ip port a e l)
              ])
      ]

  pub remove_forward_cases :
      (name : Text) (d : Daemon)
      → (lookup name d.registry ≡ none → P (none, d))
      → ((f : Forwarder) (e : FileError)
          → lookup name d.registry ≡ some f
          → (save os (unregister name d)).0 ≡ err e
          → P (some (not_saved e), register_forwarder name f (save os (unregister name d)).1))
      → ((f : Forwarder)
          → lookup name d.registry ≡ some f
          → (save os (unregister name d)).0 ≡ ok tt
          → P (
            if os.close_listener then none else some close_failed,
            close_forwarder f (save os (unregister name d)).1,
          ))
      → P (remove_forward os name d)
  unfolding remove_forward commit_remove
  remove_forward_cases name d absent kept removed = elim (Option-cases (lookup name d.registry)) [
    | inl e ↦ rw (e, remove_forward) (absent e)
    | inr (f, e) ↦
        rw (e, remove_forward) (go f (save os (unregister name d)) (λ x. kept f x e) (removed f e))
  ]
    where
      go :
          (f : Forwarder) (o : Result FileError (Unit {0}) × Daemon)
          → ((e : FileError) → o.0 ≡ err e → P (some (not_saved e), register_forwarder name f o.1))
          → (o.0 ≡ ok tt
              → P (if os.close_listener then none else some close_failed, close_forwarder f o.1))
          → P (finish_remove os name f o)
      go f (ok tt, d') bad good = unfold finish_remove in good refl
      go f (err e, d') bad good = unfold finish_remove in bad e refl

  pub update_forward_cases :
      (req : ForwardRequest) (d : Daemon)
      → (text_eq req.request (codes "forward-list") ≡ true → P (none, d))
      → (text_eq req.request (codes "forward-add") ≡ true → P (add_forward os req d))
      → (text_eq req.request (codes "forward-remove") ≡ true → P (remove_forward os req.name d))
      → P (some unknown_request, d)
      → P (update_forward os req d)
  unfolding update_forward
  update_forward_cases req d list add remove other =
      if_cases P _ list (λ _. if_cases P _ add (λ _. if_cases P _ remove (λ _. other)))
