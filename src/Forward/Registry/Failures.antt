-- ===== src/Forward/Registry/Failures.antt =====
-- A request that is answered with an error changes nothing: a forwarder that could not be published
-- is closed and taken out again, and one whose removal could not be published is put back.
use exasol_local_vm.Prelude.{
  ℕ, Text, text_eq_iff, codes, Bool, true, false, Option, none, some, ◌≡◌, ◌≢◌, refl, arith, err,
}
use exasol_local_vm.Prelude.Map.{Map, lookup, delete-insert, lookup-insert, lookup-delete}
use exasol_local_vm.Forward.StateFile.{
  FileError, ForwardState, Files, FileCalls, save_forward_state,
}
use exasol_local_vm.Forward.StateFile.Atomic.{save_atomic}
use exasol_local_vm.Forward.Registry.{
  Forwarder, Daemon, Os, ForwardError, close_failed, ForwardRequest, Reply, opened, close_forwarder,
  register_forwarder, unregister, save, commit_add, update_forward, handle_if,
  handle_forward_request, respond,
}
use exasol_local_vm.Forward.Registry.Cases.{
  new_of, commit_add_cases, add_forward_cases, remove_forward_cases, update_forward_cases,
}
use exasol_local_vm.Forward.Registry.WellFormed.{WellFormed, has_id-fresh}

-- What a client or a consumer of `vm-state.json` can see of a daemon.
pub record Same (d d' : Daemon) : Type 0 where
  pub forwards : (k : Text) → lookup k d'.registry ≡ lookup k d.registry
  pub published : d'.files.state_file ≡ d.files.state_file
  pub listeners : (i : ℕ) → d'.listening i ≡ d.listening i

pub Same-refl : (d : Daemon) → Same d d
Same-refl d = record { forwards = λ k. refl; published = refl; listeners = λ i. refl }

pub save_failed :
    (os : FileCalls) (states : Map ForwardState) (f : Files) {e : FileError}
    → (save_forward_state os states f).0 ≡ err e
    → (save_forward_state os states f).1.state_file ≡ f.state_file
save_failed os states f h = ground (arith, save_atomic os states f (codes ""))

abbrev Failed : Daemon → Reply → Type 0
Failed d r = (e : ForwardError) → r.0 ≡ some e → e ≢ close_failed → Same d r.1

pub commit_add_failed :
    (os : Os) (f : Forwarder) (d : Daemon)
    → WellFormed d
    → f.id ≡ d.next_id
    → lookup f.name d.registry ≡ none
    → (e : ForwardError) → (commit_add os f (opened d)).0 ≡ some e
    → Same d (commit_add os f (opened d)).1
unfolding save register_forwarder unregister close_forwarder
commit_add_failed os f d w i h =
    commit_add_cases (λ r. (e : ForwardError) → r.0 ≡ some e → Same d r.1) os f (opened d)
      (λ _ e q. cc)
      λ e s e' q. record {
        forwards = λ k. rw (delete-insert f.name f d.registry h);
        published = save_failed os.file_calls _ d.files s;
        listeners =
            λ j. ground (arith, w.listeners d.next_id, has_id-fresh d.next_id d.registry w.entries);
      }

-- A removal that could not be published is undone, up to the unspecified order of the map.
pub remove_undone :
    (os : Os) (name : Text) (f : Forwarder) (d : Daemon) {e : FileError}
    → lookup name d.registry ≡ some f
    → (save os (unregister name d)).0 ≡ err e
    → Same d (register_forwarder name f (save os (unregister name d)).1)
unfolding save register_forwarder unregister
remove_undone os name f d h s = record {
  forwards = λ k. rw (lookup-insert, lookup-delete) (ground (arith, text_eq_iff k name));
  published = save_failed os.file_calls _ d.files s;
  listeners = λ j. refl;
}

update_forward-Failed :
    (os : Os) (req : ForwardRequest) (d : Daemon)
    → WellFormed d
    → Failed d (update_forward os req d)
update_forward-Failed os req d w =
    let same : (r : Option ForwardError) → Failed d (r, d) = λ r e q n. Same-refl d in
    update_forward_cases (Failed d) os req d (λ _. same none)
      (λ _.
        add_forward_cases (Failed d) os req d (λ e n. same (some e)) (λ spec ip f a e s. same none)
          (λ spec ip port a e l e' q n.
            commit_add_failed os (new_of d spec ip port) d w refl e e' q))
      (λ _.
        remove_forward_cases (Failed d) os req.name d (λ _. same none)
          (λ f e h s e' q n. remove_undone os req.name f d h s)
          (λ f h s e' q n. absurd (n (ground arith))))
      (same _)

respond_failed :
    (r : Reply) {e : ForwardError} → (respond r).0 ≡ err e → (r.0 ≡ some e) × ((respond r).1 ≡ r.1)
respond_failed (none, d) h = cc
respond_failed (some e, d) h = ground arith

handle_if_failed :
    (b : Bool) (os : Os) (req : ForwardRequest) (d : Daemon) {e : ForwardError}
    → WellFormed d
    → (handle_if b os req d).0 ≡ err e
    → e ≢ close_failed
    → Same d (handle_if b os req d).1
unfolding handle_if
handle_if_failed false os req d w q n = Same-refl d
handle_if_failed true os req d w q n =
    let (p, s) = respond_failed (update_forward os req d) q in
    rw s (update_forward-Failed os req d w _ p n)

-- A request that is answered with an error leaves the forwards, the open listeners and the
-- published state as they were. The one exception is an error on closing the listener, which
-- comes after a removal that is already published.
pub handle_forward_request_failed :
    (os : Os) (req : ForwardRequest) (d : Daemon) {e : ForwardError}
    → WellFormed d
    → (handle_forward_request os req d).0 ≡ err e
    → e ≢ close_failed
    → Same d (handle_forward_request os req d).1
unfolding handle_forward_request
handle_forward_request_failed os req d w q n = handle_if_failed d.ready os req d w q n
