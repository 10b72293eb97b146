-- ===== src/Forward/Registry/Effects.antt =====
-- What a successful request does, and that it can be repeated.
use exasol_local_vm.Prelude.{
  ℕ, Text, text_eq, text_eq_iff, text_eq_refl, codes, Bool, true, false, none, some, ◌≡◌, refl, ◌∙◌,
  sym, arith, ok, eqb_ℤ_iff,
}
use exasol_local_vm.Prelude.Map.{Map, lookup, lookup-insert_self, lookup-delete_self}
use exasol_local_vm.Forward.Spec.{ForwardSpec}
use exasol_local_vm.Forward.StateFile.{ForwardState}
use exasol_local_vm.Forward.Registry.{
  Forwarder, Daemon, Os, ForwardRequest, Reply, opened, close_forwarder, register_forwarder,
  unregister, save, add_checked, same_settings, add_forward, remove_forward, update_forward,
  handle_if, handle_forward_request, respond,
}
use exasol_local_vm.Forward.Registry.Cases.{
  Accepted, new_of, commit_add_cases, add_forward_cases, remove_forward_cases, update_forward_cases,
}
use exasol_local_vm.Forward.Registry.Requests.{respond-state}

-- A forwarder with the settings of an accepted request.
pub record Serves (req : ForwardRequest) (d : Daemon) : Type 0 where
  pub spec : ForwardSpec
  pub ip : Text
  pub accepted : Accepted req spec ip
  pub forwarder : Forwarder
  pub registered : lookup spec.name d.registry ≡ some forwarder
  pub same : same_settings forwarder spec ip ≡ true

-- The request is answered without a change.
Serves-again :
    (os : Os) (req : ForwardRequest) (d : Daemon) → Serves req d → add_forward os req d ≡ (none, d)
unfolding add_forward
Serves-again os req d s =
    rw (s.accepted.parsed, s.accepted.address, add_forward)
      (unfold add_checked in rw (s.registered, s.same, add_checked))

new_of-same :
    (d : Daemon) (spec : ForwardSpec) (ip : Text) (port : ℕ)
    → same_settings (new_of d spec ip port) spec ip ≡ true
unfolding same_settings
new_of-same d spec ip port = ground (
  arith,
  text_eq_refl ip,
  eqb_ℤ_iff spec.guest_port spec.guest_port,
  eqb_ℤ_iff spec.host_port spec.host_port,
)

abbrev Done : (Daemon → Type 0) → Reply → Type 0
Done Q r = r.0 ≡ none → Q r.1

pub add_forward-Serves :
    (os : Os) (req : ForwardRequest) (d : Daemon) → Done (Serves req) (add_forward os req d)
unfolding save register_forwarder
add_forward-Serves os req d =
    add_forward_cases (Done (Serves req)) os req d (λ e n q. cc)
      (λ spec ip f a e s _. record {
        spec = spec;
        ip = ip;
        accepted = a;
        forwarder = f;
        registered = e;
        same = s;
      })
      (λ spec ip port a e l.
        commit_add_cases (Done (Serves req)) os (new_of d spec ip port) (opened d)
          (λ s _. record {
            spec = spec;
            ip = ip;
            accepted = a;
            forwarder = new_of d spec ip port;
            registered = lookup-insert_self spec.name _ d.registry;
            same = new_of-same d spec ip port;
          })
          (λ e s q. cc))

remove_forward-absent :
    (os : Os) (name : Text) (d : Daemon)
    → Done (λ d'. lookup name d'.registry ≡ none) (remove_forward os name d)
unfolding save unregister close_forwarder
remove_forward-absent os name d =
    remove_forward_cases (Done (λ d'. lookup name d'.registry ≡ none)) os name d (λ h _. h)
      (λ f e h s q. cc) (λ f h s q. lookup-delete_self name d.registry)

absent-again :
    (os : Os) (name : Text) (d : Daemon)
    → lookup name d.registry ≡ none
    → remove_forward os name d ≡ (none, d)
unfolding remove_forward
absent-again os name d h = rw (h, remove_forward)

module _ (os : Os) (req : ForwardRequest) (d : Daemon) where
  at_list : text_eq req.request (codes "forward-list") ≡ true → update_forward os req d ≡ (none, d)
  unfolding update_forward
  at_list h = rw h

  at_add :
      text_eq req.request (codes "forward-add") ≡ true
      → update_forward os req d ≡ add_forward os req d
  unfolding update_forward
  at_add h = ground (
    arith,
    text_eq_iff req.request (codes "forward-add"),
    text_eq_iff req.request (codes "forward-list"),
  )

  at_remove :
      text_eq req.request (codes "forward-remove") ≡ true
      → update_forward os req d ≡ remove_forward os req.name d
  unfolding update_forward
  at_remove h = ground (
    arith,
    text_eq_iff req.request (codes "forward-remove"),
    text_eq_iff req.request (codes "forward-list"),
    text_eq_iff req.request (codes "forward-add"),
  )

update_forward_again :
    (os os' : Os) (req : ForwardRequest) (d : Daemon)
    → Done (λ d'. update_forward os' req d' ≡ (none, d')) (update_forward os req d)
update_forward_again os os' req d =
    update_forward_cases (Done (λ d'. update_forward os' req d' ≡ (none, d'))) os req d
      (λ h _. at_list os' req d h)
      (λ h q. at_add os' req _ h ∙ Serves-again os' req _ (add_forward-Serves os req d q))
      (λ h q.
        at_remove os' req _ h ∙ absent-again os' req.name _ (remove_forward-absent os req.name d q))
      (λ q. cc)

abbrev Flags : Daemon → Reply → Type 0
Flags d r = (r.1.ready ≡ d.ready) × (r.1.stopping ≡ d.stopping)

update_forward-Flags :
    (os : Os) (req : ForwardRequest) (d : Daemon) → Flags d (update_forward os req d)
unfolding save register_forwarder unregister close_forwarder
update_forward-Flags os req d =
    update_forward_cases (Flags d) os req d (λ _. (refl, refl))
      (λ _.
        add_forward_cases (Flags d) os req d (λ e n. (refl, refl)) (λ spec ip f a e s. (refl, refl))
          λ spec ip port a e l.
            commit_add_cases (Flags d) os (new_of d spec ip port) (opened d) (λ _. (refl, refl))
              (λ e _. (refl, refl)))
      (λ _.
        remove_forward_cases (Flags d) os req.name d (λ _. (refl, refl)) (λ f e h s. (refl, refl))
          (λ f h s. (refl, refl)))
      (refl, refl)

-- No request changes whether the daemon is ready or stopping.
pub handle_forward_request-flags :
    (os : Os) (req : ForwardRequest) (d : Daemon)
    → ((handle_forward_request os req d).1.ready ≡ d.ready)
      × ((handle_forward_request os req d).1.stopping ≡ d.stopping)
unfolding handle_forward_request
handle_forward_request-flags os req d = go d.ready
  where
    go :
        (b : Bool)
        → ((handle_if b os req d).1.ready ≡ d.ready)
          × ((handle_if b os req d).1.stopping ≡ d.stopping)
    go false = unfold handle_if in (refl, refl)
    go true =
        unfold handle_if in
        rw (respond-state (update_forward os req d)) (update_forward-Flags os req d)

handle_if-ready :
    (b : Bool) (os : Os) (req : ForwardRequest) (d : Daemon)
    → (handle_if b os req d).1.ready ≡ d.ready
unfolding handle_if
handle_if-ready false os req d = refl
handle_if-ready true os req d =
    rw (respond-state (update_forward os req d)) ((update_forward-Flags os req d).0)

respond_again :
    (r : Reply) (again : Daemon → Reply) {states : Map ForwardState}
    → (respond r).0 ≡ ok states
    → Done (λ d'. again d' ≡ (none, d')) r
    → respond (again r.1) ≡ (ok states, r.1)
respond_again (none, d) again h f = rw (f refl) (λ i. (h i, d))
respond_again (some e, d) again h f = cc

handle_if_again :
    (b b' : Bool) (os os' : Os) (req : ForwardRequest) (d : Daemon) {states : Map ForwardState}
    → b ≡ b'
    → (handle_if b os req d).0 ≡ ok states
    → handle_if b' os' req (handle_if b os req d).1 ≡ (ok states, (handle_if b os req d).1)
unfolding handle_if
handle_if_again true true os os' req d e h = rw (respond-state (update_forward os req d)) (
    respond_again (update_forward os req d) (λ d'. update_forward os' req d') h
      (update_forward_again os os' req d))
handle_if_again _ _ os os' req d e h = cc

-- A request that succeeded succeeds again with the same answer and changes nothing, whatever the
-- system answers the second time.
pub handle_forward_request_again :
    (os os' : Os) (req : ForwardRequest) (d : Daemon) {states : Map ForwardState}
    → (handle_forward_request os req d).0 ≡ ok states
    → let d' = (handle_forward_request os req d).1 in
      handle_forward_request os' req d' ≡ (ok states, d')
unfolding handle_forward_request
handle_forward_request_again os os' req d h =
    handle_if_again d.ready _ os os' req d (sym (handle_if-ready d.ready os req d)) h
