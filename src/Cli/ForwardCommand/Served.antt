-- ===== src/Cli/ForwardCommand/Served.antt =====
-- A command that the client accepts, served by the daemon.
use exasol_local_vm.Prelude.{
  Text, codes, text_eq, Bool, true, false, ◌||◌, List, [], ◌∷◌, Option, some, ◌≡◌, refl, inl, inr,
  arith, Result, ok, err, Option-cases,
}
use exasol_local_vm.Prelude.Map.{lookup}
use exasol_local_vm.Std.Net.{parse_ip, is_loopback, loopback_string, canonical_loopback}
use exasol_local_vm.Forward.Spec.{ForwardSpec, IsValid}
use exasol_local_vm.Forward.Spec.RoundTrip.{parse-encode}
use exasol_local_vm.Forward.Registry.{
  Forwarder, Daemon, Os, ForwardRequest, ForwardError, invalid, unknown_request, start_forwarder,
  finish_add, commit_add, add_new, add_checked, same_settings, add_forward, finish_remove,
  commit_remove, remove_forward, update_forward, handle_forward_request, text_of, or_default, Reply,
  save, register_forwarder, unregister,
}
use exasol_local_vm.Forward.Registry
use exasol_local_vm.Forward.StateFile.{FileError}
use exasol_local_vm.Socket.{to_daemon, forward_answer, Dial, serve}
use exasol_local_vm.Cli.ForwardCommand.Requests.{
  IsRequest, add, remove, list, parse_forward_command-IsRequest,
}
use exasol_local_vm.Cli.ForwardCommand.{
  is_loopback_text, parse_forward_command, forward_cmd, printed,
}

-- Whether an answer says that the request itself is wrong.
abbrev pub refuses : Option ForwardError → Bool
refuses (some (invalid e)) = true
refuses (some Registry.ForwardError.not_loopback) = true
refuses (some unknown_request) = true
refuses _ = false

module _ (os : Os) where
  finish_add-refuses :
      (f : Forwarder) (o : Result FileError (Unit {0}) × Daemon)
      → refuses (finish_add f o).0 ≡ false
  unfolding finish_add
  finish_add-refuses f (ok _, d) = refl
  finish_add-refuses f (err e, d) = refl

  add_new-refuses :
      (spec : ForwardSpec) (ip : Text) (d : Daemon) → refuses (add_new os spec ip d).0 ≡ false
  unfolding add_new commit_add
  add_new-refuses spec ip d =
      elim (Option-cases
        (start_forwarder os spec.name ip spec.host_port d.guest_host spec.guest_port d)) [
          | inl e ↦ rw (e, add_new)
          | inr ((f, d'), e) ↦ rw (e, add_new) (finish_add-refuses f _)
        ]

  add_checked-refuses :
      (spec : ForwardSpec) (ip : Text) (d : Daemon) → refuses (add_checked os spec ip d).0 ≡ false
  unfolding add_checked
  add_checked-refuses spec ip d = elim (Option-cases (lookup spec.name d.registry)) [
    | inl e ↦ rw (e, add_checked) (add_new-refuses spec ip d)
    | inr (f, e) ↦ rw (e, add_checked) (ground arith)
  ]

  finish_remove-refuses :
      (name : Text) (f : Forwarder) (o : Result FileError (Unit {0}) × Daemon)
      → refuses (finish_remove os name f o).0 ≡ false
  unfolding finish_remove
  finish_remove-refuses name f (ok _, d) = ground arith
  finish_remove-refuses name f (err e, d) = refl

  remove_forward-refuses : (name : Text) (d : Daemon) → refuses (remove_forward os name d).0 ≡ false
  unfolding remove_forward commit_remove
  remove_forward-refuses name d = elim (Option-cases (lookup name d.registry)) [
    | inl e ↦ rw (e, remove_forward)
    | inr (f, e) ↦ rw (e, remove_forward) (finish_remove-refuses name f _)
  ]

-- The daemon's view of an address that the client lets through.
loopback-canonical :
    (ip : Text) → is_loopback_text ip ≡ true → (c : Text) × (canonical_loopback ip ≡ some c)
unfolding is_loopback_text canonical_loopback
loopback-canonical ip h = elim (Option-cases (parse_ip ip)) [
  | inl e ↦ let k : false ≡ true = rw (e, is_loopback_text) at h in cc
  | inr (a, e) ↦
      let l : is_loopback a ≡ true = rw (e, is_loopback_text) at h in
      (loopback_string a, rw (e, canonical_loopback) (rw l))
]

given_address : (ip : Text) → is_loopback_text ip ≡ true → or_default ip ≡ ip
unfolding is_loopback_text parse_ip
given_address [] h = cc
given_address (x ∷ s) h = refl

module _ (os : Os) (req : ForwardRequest) (d : Daemon) where
  add_forward-refuses :
      IsValid (record { name = req.name; guest_port = req.guest_port; host_port = req.host_port })
      → is_loopback_text req.host_ip ≡ true
      → refuses (add_forward os req d).0 ≡ false
  unfolding add_forward
  add_forward-refuses v l =
      let (c, e) = loopback-canonical req.host_ip l in
      rw (parse-encode _ v, given_address _ l, e, add_forward) (add_checked-refuses os _ c d)

  update_forward-refuses : IsRequest req → refuses (update_forward os req d).0 ≡ false
  unfolding update_forward text_eq add_forward
  update_forward-refuses (add v l e) = rw e (add_forward-refuses v l)
  update_forward-refuses (remove e) = rw e (remove_forward-refuses os req.name d)
  update_forward-refuses (list e) = rw e

-- Whether the socket passes a request on to the handler of live requests.
abbrev is_live : Text → Bool
is_live request =
    text_eq request (codes "forward-add")
    || text_eq request (codes "forward-remove")
    || text_eq request (codes "forward-list")

request-is_live : (req : ForwardRequest) → IsRequest req → is_live req.request ≡ true
unfolding text_eq
request-is_live req (add v l e) = rw e refl
request-is_live req (remove e) = rw e refl
request-is_live req (list e) = rw e refl

serve-handle :
    (os : Os) (dial : Dial) (d : Daemon) (req : ForwardRequest)
    → is_live req.request ≡ true
    → serve os dial (some req) d ≡ (
      some (forward_answer (handle_forward_request os req d).0),
      (handle_forward_request os req d).1,
    )
unfolding serve
serve-handle os dial d req h = rw h refl

pub forward_cmd-serve :
    (os : Os) (dial : Dial) (d : Daemon) (args : List Text) (req : ForwardRequest)
    → parse_forward_command args ≡ ok req
    → let r = serve os dial (some req) d in
      (forward_cmd args (to_daemon os dial d) ≡ printed (handle_forward_request os req d).0)
      × (r.1 ≡ (handle_forward_request os req d).1)
      × (refuses (update_forward os req d).0 ≡ false)
unfolding forward_cmd
forward_cmd-serve os dial d args req h =
    let q = parse_forward_command-IsRequest args req h in
    let s = serve-handle os dial d req (request-is_live req q) in
    (rw (h, s) refl, rw s refl, update_forward-refuses os req d q)
