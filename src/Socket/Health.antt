-- ===== src/Socket/Health.antt =====
-- What the clients of the socket learn from the daemon, and what the daemon's state keeps.
use mathlib.Core.Option
use mathlib.Core.Path.{subst}
use exasol_local_vm.Prelude.{
  Text, text_eq, codes, Bool, true, false, ◌&&◌, ◌||◌, Option, none, some, ◌≡◌, refl, sym, ◌⊎◌, inl,
  inr, arith, ok,
}
use exasol_local_vm.Prelude.Map.{Map, lookup, lookup-map_values}
use exasol_local_vm.Forward.Registry.{
  Daemon, Os, ForwardRequest, handle_forward_request, update_forward, handle_if,
}
use exasol_local_vm.Forward.Registry.WellFormed.{WellFormed}
use exasol_local_vm.Forward.Registry.Requests.{
  BindsExactly, respond-state, handle_forward_request-WellFormed,
}
use exasol_local_vm.Forward.Registry.Published.{IsPublished, handle_forward_request-IsPublished}
use exasol_local_vm.Socket.{
  to_daemon, DialFailure, classify_dial_err, Dial, probe, PortHealthResponse, probe_forwarders,
  serve, bare, is_vm_running, query_health_check, is_running_answer, ports_answer,
}

abbrev pub is_reachable : Option DialFailure → Bool
is_reachable none = true
is_reachable (some e) = false

-- Only a dial without an error is reported as reachable.
pub classify_dial_err_iff :
    (e : Option DialFailure) → text_eq (classify_dial_err e) (codes "reachable") ≡ is_reachable e
unfolding classify_dial_err text_eq
classify_dial_err_iff none = refl
classify_dial_err_iff (some e) = ground arith

-- A health check over a working connection reports, for each name, how the guest address of the
-- forwarder registered under it answers a dial, and nothing for a name that is not registered; the daemon does not change.
pub query_health_check-serve :
    (os : Os) (dial : Dial) (d : Daemon)
    → let r = serve os dial (some (bare (codes "health-check"))) d in
      (ports : Map PortHealthResponse) × (query_health_check (to_daemon os dial d) ≡ ok ports)
      × ((k : Text)
          → lookup k ports
            ≡ Option.map
                (λ f. record { state = classify_dial_err (dial f.guest_host f.guest_port) })
                (lookup k d.registry))
      × (r.1 ≡ d)
unfolding serve query_health_check probe_forwarders probe text_eq ports_answer
query_health_check-serve os dial d = (
  probe_forwarders dial d,
  refl,
  (λ k.
      lookup-map_values (λ f. record { state = classify_dial_err (dial f.guest_host f.guest_port) })
        k d.registry),
  refl,
)

-- A daemon that serves is seen as running exactly when the client can connect and send, and its state
-- does not change.
pub is_vm_running-serve :
    (os : Os) (dial : Dial) (d : Daemon) (connects sends : Bool)
    → let r = serve os dial (some (bare (codes "status"))) d in
      (is_vm_running (record (to_daemon os dial d) { connects = connects; sends = sends })
        ≡ (connects && sends))
      × (r.1 ≡ d)
unfolding serve is_vm_running text_eq is_running_answer
is_vm_running-serve os dial d true true = (refl, refl)
is_vm_running-serve os dial d true false = (refl, refl)
is_vm_running-serve os dial d false sends = (refl, refl)

abbrev Safe : Daemon → Type 0
Safe d = WellFormed d × IsPublished d

module _ (os : Os) (dial : Dial) (d : Daemon) where
  serve_cases :
      (req : ForwardRequest)
      → ((serve os dial (some req) d).1 ≡ (handle_forward_request os req d).1)
        ⊎ ((serve os dial (some req) d).1 ≡ d)
  unfolding serve
  serve_cases req = ground arith

  -- Whatever a connection asks for, the registry stays well formed and the state file keeps listing
  -- it, if ports other than 0 are bound exactly.
  pub serve-IsPublished :
      (req : Option ForwardRequest)
      → BindsExactly os
      → WellFormed d
      → IsPublished d
      → WellFormed (serve os dial req d).1 × IsPublished (serve os dial req d).1
  serve-IsPublished none x w p = unfold serve in (w, p)
  serve-IsPublished (some req) x w p = elim (serve_cases req) [
    | inl e ↦ subst Safe (sym e) (
      handle_forward_request-WellFormed os req d x w,
      handle_forward_request-IsPublished os req d w p,
    )
    | inr e ↦ subst Safe (sym e) (w, p)
  ]

  update_forward_unchanged :
      (req : ForwardRequest)
      → (text_eq req.request (codes "forward-add") || text_eq req.request (codes "forward-remove"))
        ≡ false
      → (update_forward os req d).1 ≡ d
  unfolding update_forward
  update_forward_unchanged req h = ground arith

  handle_if_unchanged :
      (b : Bool) (req : ForwardRequest)
      → (text_eq req.request (codes "forward-add") || text_eq req.request (codes "forward-remove"))
        ≡ false
      → (handle_if b os req d).1 ≡ d
  unfolding handle_if
  handle_if_unchanged false req h = refl
  handle_if_unchanged true req h =
      rw (respond-state (update_forward os req d)) (update_forward_unchanged req h)

  -- Only a request to add or to remove a forward can change the daemon.
  pub serve_unchanged :
      (req : ForwardRequest)
      → (text_eq req.request (codes "forward-add") || text_eq req.request (codes "forward-remove"))
        ≡ false
      → (serve os dial (some req) d).1 ≡ d
  unfolding serve handle_forward_request
  serve_unchanged req h = ground (arith, handle_if_unchanged d.ready req h)
