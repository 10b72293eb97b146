-- ===== src/Start/Clear.antt =====
-- What `startCmd` finds and leaves before the launch.
use exasol_local_vm.Prelude.{
  true, false, Option, none, ◌≡◌, sym, ◌∙◌, ap, arith, ℤ, Result, ok, err,
}
use exasol_local_vm.Prelude.Effects.{run_cases}
use exasol_local_vm.Forward.StateFile.{missing}
use exasol_local_vm.Disk.{Disk, DiskError, ensure_data_disk}
use exasol_local_vm.Assets.{Tree, InitError, refresh_init_assets}
use exasol_local_vm.Init.{shared_dir}
use exasol_local_vm.Socket.{Connection, is_vm_running}
use exasol_local_vm.Start.{
  Host, StartCalls, put_tree, put_disk, remove_state, remove_runtime, remove_marker, remove_stale,
}

-- The ground is clear: no stale file can be taken for the new daemon's, the assets are fresh and the
-- disk is as ensured.
pub record IsClear (os : StartCalls) (status : Connection) (size_gb : ℤ) (h h' : Host)
    : Type 0 where
  pub was_initialized : h.initialized ≡ true
  pub was_stopped : is_vm_running status ≡ false
  pub no_state : h'.files.state_file ≡ missing
  pub no_runtime : h'.runtime ≡ none
  pub no_marker : h'.marker ≡ none
  pub refreshed : refresh_init_assets os.files os.assets shared_dir h.tree ≡ (ok tt, h'.tree)
  pub ensured : ensure_data_disk os.disk size_gb h.disk ≡ (ok tt, h'.disk)

-- The log and the launch do not matter for that.
pub unmoved :
    {os : StartCalls} {status : Connection} {size_gb : ℤ} {h : Host} (a b : Host)
    → IsClear os status size_gb h a
    → b.files ≡ a.files
    → b.runtime ≡ a.runtime
    → b.marker ≡ a.marker
    → b.disk ≡ a.disk
    → b.tree ≡ a.tree
    → IsClear os status size_gb h b
unmoved a b c f r m d s = record {
  was_initialized = c.was_initialized;
  was_stopped = c.was_stopped;
  no_state = ap (λ x. x.state_file) f ∙ c.no_state;
  no_runtime = r ∙ c.no_runtime;
  no_marker = m ∙ c.no_marker;
  ensured = c.ensured ∙ ap (λ x. (ok tt, x)) (sym d);
  refreshed = c.refreshed ∙ ap (λ x. (ok tt, x)) (sym s);
}

-- What removing the stale files leaves, if it succeeds.
pub record Removed (h h' : Host) : Type 0 where
  pub no_state : h'.files.state_file ≡ missing
  pub no_runtime : h'.runtime ≡ none
  pub no_marker : h'.marker ≡ none
  pub disk : h'.disk ≡ h.disk
  pub tree : h'.tree ≡ h.tree

removed :
    (h a b t : Host)
    → a ≡ record h { files = record h.files { state_file = missing } }
    → b ≡ record a { runtime = none }
    → t ≡ record b { marker = none }
    → Removed h t
removed h a b t e k l = record {
  no_state =
      ap (λ x. x.files.state_file) l
      ∙ (ap (λ x. x.files.state_file) k ∙ ap (λ x. x.files.state_file) e);
  no_runtime = ap (λ x. x.runtime) l ∙ ap (λ x. x.runtime) k;
  no_marker = ap (λ x. x.marker) l;
  disk = ap (λ x. x.disk) l ∙ (ap (λ x. x.disk) k ∙ ap (λ x. x.disk) e);
  tree = ap (λ x. x.tree) l ∙ (ap (λ x. x.tree) k ∙ ap (λ x. x.tree) e);
}

pub put_tree-ok :
    (h t : Host) (o : Result InitError (Unit {0}) × Tree)
    → put_tree h o ≡ (ok tt, t)
    → (o ≡ (ok tt, t.tree)) × (t.disk ≡ h.disk)
unfolding put_tree
put_tree-ok h t (ok _, tree) e = (ap (λ r. (ok tt, r.1.tree)) e, sym (ap (λ r. r.1.disk) e))
put_tree-ok h t (err x, tree) e = cc

pub put_disk-ok :
    (h t : Host) (o : Result DiskError (Unit {0}) × Option Disk)
    → put_disk h o ≡ (ok tt, t)
    → (o ≡ (ok tt, t.disk)) × (t.tree ≡ h.tree)
unfolding put_disk
put_disk-ok h t (ok _, disk) e = (ap (λ r. (ok tt, r.1.disk)) e, sym (ap (λ r. r.1.tree) e))
put_disk-ok h t (err x, disk) e = cc

module _ (os : StartCalls) where
  state_removed :
      (h t : Host)
      → remove_state os h ≡ (ok tt, t)
      → t ≡ record h { files = record h.files { state_file = missing } }
  unfolding remove_state
  state_removed h t e = ground arith

  runtime_removed :
      (h t : Host) → remove_runtime os h ≡ (ok tt, t) → t ≡ record h { runtime = none }
  unfolding remove_runtime
  runtime_removed h t e = ground arith

  marker_removed : (h t : Host) → remove_marker os h ≡ (ok tt, t) → t ≡ record h { marker = none }
  unfolding remove_marker
  marker_removed h t e = ground arith

  pub remove_stale-Removed : (h t : Host) → remove_stale os h ≡ (ok tt, t) → Removed h t
  unfolding remove_stale
  remove_stale-Removed h t =
      run_cases (λ r. r ≡ (ok tt, t) → Removed h t) h (remove_state os) _
        (λ _ a e.
          run_cases (λ r. r ≡ (ok tt, t) → Removed h t) a (remove_runtime os) _
            (λ _ b k (l : remove_marker os b ≡ (ok tt, t)).
              removed h a b t (state_removed h a e) (runtime_removed a b k) (marker_removed b t l))
            (λ _ b k l. cc))
        (λ _ a e l. cc)
