-- ===== src/Forward/Registry/Refinement.antt =====
-- The contract of the live commands: a request that succeeds takes the abstract map from names to
-- forwards one step further, and is answered with the new map.
use exasol_local_vm.Prelude.{
  Text, text_eq_iff, codes, Bool, true, false, none, some, ◌≡◌, ◌≢◌, refl, ◌⊎◌, arith, ok, pos,
  eqb_ℤ_iff,
}
use exasol_local_vm.Prelude.Map.{
  Map, lookup, lookup-insert, lookup-delete, lookup-map_values, All-lookup,
}
use exasol_local_vm.Forward.Spec.{ForwardSpec, parse_forward_spec}
use exasol_local_vm.Forward.StateFile.{ForwardState}
use exasol_local_vm.Forward.Registry.{
  Forwarder, Daemon, Os, ForwardRequest, text_of, Reply, opened, state_of, close_forwarder,
  register_forwarder, unregister, save, same_settings, add_forward, remove_forward, update_forward,
  handle_if, handle_forward_request, forward_states, respond,
}
use exasol_local_vm.Forward.Registry.Cases.{
  Accepted, new_of, commit_add_cases, add_forward_cases, remove_forward_cases, update_forward_cases,
}
use exasol_local_vm.Forward.Registry.WellFormed.{WellFormed}
use exasol_local_vm.Forward.Registry.Requests.{BindsExactly, update_forward-WellFormed}
use exasol_local_vm.Forward.Registry.Published.{view}
use exasol_local_vm.Forward.Registry.Effects.{add_forward-Serves}

-- One step of the abstract map.
pub data Refines (req : ForwardRequest) (d d' : Daemon) : Type 0 where
  -- nothing changes
  listed :
      req.request ≡ codes "forward-list" → ((k : Text) → view d' k ≡ view d k) → Refines req d d'
  -- the name maps to what was asked for, at the very host port unless that was 0
  added :
      (spec : ForwardSpec) (ip : Text) (state : ForwardState)
      → req.request ≡ codes "forward-add"
      → Accepted req spec ip
      → view d' spec.name ≡ some state
      → state.host_ip ≡ ip
      → state.guest_port ≡ spec.guest_port
      → (spec.host_port ≡ pos 0) ⊎ (spec.host_port ≡ pos state.host_port)
      → ((k : Text) → k ≢ spec.name → view d' k ≡ view d k)
      → Refines req d d'
  -- the name is gone and its listener is closed; the others stay
  removed :
      req.request ≡ codes "forward-remove"
      → view d' req.name ≡ none
      → ((k : Text) → k ≢ req.name → view d' k ≡ view d k)
      → ((f : Forwarder) → lookup req.name d.registry ≡ some f → d'.listening f.id ≡ false)
      → Refines req d d'

abbrev Others : Text → Daemon → Daemon → Type 0
Others name d d' = (k : Text) → k ≢ name → view d' k ≡ view d k

add-Others :
    (os : Os) (req : ForwardRequest) (d : Daemon) (spec : ForwardSpec)
    → parse_forward_spec (text_of req) ≡ ok spec
    → (add_forward os req d).0 ≡ none
    → Others spec.name d (add_forward os req d).1
unfolding save register_forwarder
add-Others os req d spec p =
    add_forward_cases (λ r. r.0 ≡ none → Others spec.name d r.1) os req d (λ e n q k h. refl)
      (λ spec' ip f a e s q k h. refl)
      (λ spec' ip port a e l.
        commit_add_cases (λ r. r.0 ≡ none → Others spec.name d r.1) os (new_of d spec' ip port)
          (opened d)
          (λ s q k h. ground (
            arith,
            lookup-insert k spec'.name (new_of d spec' ip port) d.registry,
            text_eq_iff k spec'.name,
            a.parsed,
          ))
          (λ e s q k h. cc))

same_fields :
    (f : Forwarder) (spec : ForwardSpec) (ip : Text)
    → same_settings f spec ip ≡ true
    → (f.guest_port ≡ spec.guest_port) × (f.requested_port ≡ spec.host_port) × (f.host_ip ≡ ip)
unfolding same_settings
same_fields f spec ip h = ground (
  arith,
  eqb_ℤ_iff f.guest_port spec.guest_port,
  eqb_ℤ_iff f.requested_port spec.host_port,
  text_eq_iff f.host_ip ip,
)

add-Refines :
    (os : Os) (req : ForwardRequest) (d : Daemon)
    → req.request ≡ codes "forward-add"
    → (add_forward os req d).0 ≡ none
    → WellFormed (add_forward os req d).1
    → Refines req d (add_forward os req d).1
add-Refines os req d r q w =
    let s = add_forward-Serves os req d q in
    let (g, p, i) = same_fields s.forwarder s.spec s.ip s.same in
    let e = All-lookup _ s.spec.name (add_forward os req d).1.registry w.entries s.registered in
    let exact = e.exact in
    added s.spec s.ip (state_of s.forwarder) r s.accepted (rw s.registered) i g (ground arith)
      (add-Others os req d s.spec s.accepted.parsed q)

remove-Refines :
    (os : Os) (req : ForwardRequest) (d : Daemon)
    → req.request ≡ codes "forward-remove"
    → (remove_forward os req.name d).0 ≡ none
    → Refines req d (remove_forward os req.name d).1
unfolding save unregister close_forwarder
remove-Refines os req d r =
    remove_forward_cases (λ o. o.0 ≡ none → Refines req d o.1) os req.name d
      (λ h q. removed r (rw h) (λ k n. refl) (λ f e. cc)) (λ f e h s q. cc)
      (λ f h s q.
        removed r
          (ground
            (arith, lookup-delete req.name req.name d.registry, text_eq_iff req.name req.name))
          (λ k n. ground (arith, lookup-delete k req.name d.registry, text_eq_iff k req.name))
          (λ g e. ground arith))

update-Refines :
    (os : Os) (req : ForwardRequest) (d : Daemon)
    → WellFormed (update_forward os req d).1
    → (update_forward os req d).0 ≡ none
    → Refines req d (update_forward os req d).1
update-Refines os req d =
    update_forward_cases (λ o. WellFormed o.1 → o.0 ≡ none → Refines req d o.1) os req d
      (λ h w q. listed ((text_eq_iff _ _).0 h) (λ k. refl))
      (λ h w q. add-Refines os req d ((text_eq_iff _ _).0 h) q w)
      (λ h w q. remove-Refines os req d ((text_eq_iff _ _).0 h) q) (λ w q. cc)

respond_ok :
    (r : Reply) {states : Map ForwardState}
    → (respond r).0 ≡ ok states
    → (r.0 ≡ none) × ((respond r).1 ≡ r.1) × (states ≡ forward_states r.1)
respond_ok (none, d) h = ground arith
respond_ok (some e, d) h = cc

abbrev Answers : ForwardRequest → Daemon → Map ForwardState → Daemon → Type 0
Answers req d states d' = Refines req d d' × ((k : Text) → lookup k states ≡ view d' k)

handle_if-Refines :
    (b : Bool) (os : Os) (req : ForwardRequest) (d : Daemon) {states : Map ForwardState}
    → BindsExactly os
    → WellFormed d
    → (handle_if b os req d).0 ≡ ok states
    → Answers req d states (handle_if b os req d).1
unfolding handle_if forward_states
handle_if-Refines false os req d x w h = cc
handle_if-Refines true os req d x w h =
    let (q, s, e) = respond_ok (update_forward os req d) h in
    rw (s, e)
      (
        update-Refines os req d (update_forward-WellFormed os req d x w) q,
        λ k. lookup-map_values state_of k (update_forward os req d).1.registry,
      )

-- A request that succeeds does what it says to the map of forwards: a listing leaves it, an addition
-- maps the name to the settings asked for, a removal unmaps the name and closes its listener, and
-- all other names keep their forwards. The answer is the new map.
pub handle_forward_request-Refines :
    (os : Os) (req : ForwardRequest) (d : Daemon) {states : Map ForwardState}
    → BindsExactly os
    → WellFormed d
    → (handle_forward_request os req d).0 ≡ ok states
    → Refines req d (handle_forward_request os req d).1
      × ((k : Text) → lookup k states ≡ view (handle_forward_request os req d).1 k)
unfolding handle_forward_request
handle_forward_request-Refines os req d x w h = handle_if-Refines d.ready os req d x w h
