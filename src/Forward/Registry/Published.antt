-- ===== src/Forward/Registry/Published.antt =====
-- `vm-state.json` always holds the registry's forwards.
use mathlib.Core.Option
use exasol_local_vm.Prelude.{
  Text, text_eq, codes, Bool, true, false, Option, none, some, ◌≡◌, refl, inl, inr, arith, is_ok,
  Option-cases,
}
use exasol_local_vm.Prelude.Map.{lookup, map_values, lookup-map_values}
use exasol_local_vm.Forward.StateFile.{Content, Field, forwards, ForwardState}
use exasol_local_vm.Forward.StateFile.Atomic.{entry, save_atomic}
use exasol_local_vm.Forward.Registry.{
  Forwarder, Daemon, Os, ForwardRequest, opened, state_of, close_forwarder, unregister, save,
  commit_add, update_forward, handle_if, handle_forward_request, forward_states,
}
use exasol_local_vm.Forward.Registry.Cases.{
  new_of, commit_add_cases, add_forward_cases, remove_forward_cases, update_forward_cases,
}
use exasol_local_vm.Forward.Registry.WellFormed.{WellFormed}
use exasol_local_vm.Forward.Registry.Requests.{respond-state}
use exasol_local_vm.Forward.Registry.Failures.{Same, commit_add_failed, remove_undone}

abbrev states_at : Text → Option Field → Option ForwardState
states_at k (some (forwards m)) = lookup k m
states_at k _ = none

-- What the state file says of a name.
abbrev pub published_at : Text → Content → Option ForwardState
published_at k c = states_at k (entry (codes "forwards") c)

-- What the registry says of a name.
abbrev pub view : Daemon → Text → Option ForwardState
view d k = Option.map state_of (lookup k d.registry)

abbrev pub IsPublished : Daemon → Type 0
IsPublished d = (k : Text) → published_at k d.files.state_file ≡ view d k

Same-IsPublished : {d d' : Daemon} → Same d d' → IsPublished d → IsPublished d'
Same-IsPublished s p k = rw (s.published, s.forwards k) (p k)

save-IsPublished : (os : Os) (d : Daemon) → is_ok (save os d).0 ≡ true → IsPublished (save os d).1
unfolding save forward_states text_eq
save-IsPublished os d h k = ground (
  arith,
  save_atomic os.file_calls (map_values state_of d.registry) d.files (codes "forwards"),
  lookup-map_values state_of k d.registry,
)

module _ (os : Os) (d : Daemon) (w : WellFormed d) (p : IsPublished d) where
  commit_add-IsPublished :
      (f : Forwarder)
      → f.id ≡ d.next_id
      → lookup f.name d.registry ≡ none
      → IsPublished (commit_add os f (opened d)).1
  commit_add-IsPublished f i h =
      let failed = commit_add_failed os f d w i h in
      elim (Option-cases (commit_add os f (opened d)).0) [
        | inl done ↦
            commit_add_cases (λ r. r.0 ≡ none → IsPublished r.1) os f (opened d)
              (λ s _. save-IsPublished os _ (rw s)) (λ e s n. cc) done
        | inr (e, q) ↦ Same-IsPublished (failed e q) p
      ]

  update_forward-IsPublished : (req : ForwardRequest) → IsPublished (update_forward os req d).1
  unfolding close_forwarder
  update_forward-IsPublished req =
      update_forward_cases (λ r. IsPublished r.1) os req d (λ _. p)
        (λ _.
          add_forward_cases (λ r. IsPublished r.1) os req d (λ e n. p) (λ spec ip f a e s. p)
            (λ spec ip port a e l. commit_add-IsPublished (new_of d spec ip port) refl e))
        (λ _.
          remove_forward_cases (λ r. IsPublished r.1) os req.name d (λ _. p)
            (λ f e h s. Same-IsPublished (remove_undone os req.name f d h s) p)
            (λ f h s. save-IsPublished os (unregister req.name d) (rw s)))
        p

handle_if-IsPublished :
    (b : Bool) (os : Os) (req : ForwardRequest) (d : Daemon)
    → WellFormed d
    → IsPublished d
    → IsPublished (handle_if b os req d).1
unfolding handle_if
handle_if-IsPublished false os req d w p = p
handle_if-IsPublished true os req d w p =
    rw (respond-state (update_forward os req d)) (update_forward-IsPublished os d w p req)

-- If `vm-state.json` lists the registry's forwards before a request, it lists them after it, whatever
-- the request does and whatever the system answers.
pub handle_forward_request-IsPublished :
    (os : Os) (req : ForwardRequest) (d : Daemon)
    → WellFormed d
    → IsPublished d
    → IsPublished (handle_forward_request os req d).1
unfolding handle_forward_request
handle_forward_request-IsPublished os req d w p = handle_if-IsPublished d.ready os req d w p
