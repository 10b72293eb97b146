-- ===== src/Forward/Lifecycle/Publication.antt =====
-- `vm-state.json` is written by a daemon that has seen SSH answer, with every forward it was asked for.
use mathlib.Core.Path.{subst}
use exasol_local_vm.Prelude.{
  Text, codes, List, [], ◌∷◌, none, some, ◌≡◌, ◌≢◌, refl, sym, ap, ◌∙◌, ◌⊎◌, inl, inr, ok, err, All,
  append-nil,
}
use exasol_local_vm.Prelude.Map.{Map, lookup, insert}
use exasol_local_vm.Wait.Stop.{ssh_target}
use exasol_local_vm.Wait.Ssh.Banner.{HasGreeted, wait_for_ssh_service-HasGreeted}
use exasol_local_vm.Forward.Spec.{ForwardSpec, parse_forward_specs}
use exasol_local_vm.Forward.StateFile.{ForwardState, forwards, missing, object, Files, FileCalls}
use exasol_local_vm.Forward.Registry.{
  Forwarder, Daemon, Os, state_of, close_forwarders, handle_forward_request, start_forwarder,
  register_forwarder, ForwardRequest,
}
use exasol_local_vm.Forward.Registry.Requests.{BindsExactly, exact_port}
use exasol_local_vm.Forward.Lifecycle.{
  Phase, starting, serving, degraded, ended, System, loopback_ip, registered, Facts, write_healthy,
  publish, SshWait, HasAnswered, Step, bind, bind_failed, ssh_ready, write_failed, ssh_not_ready,
  request, signal, vm_stopped, degraded_vm_stopped, runtime_not_written, Reach, here, next, started,
}
use exasol_local_vm.Forward.Lifecycle.Invariant.{Inv, started_forwarder, idle_request}
use exasol_local_vm.Forward.Lifecycle.Safety.{Reach-Inv, started-Inv}
use exasol_local_vm.Forward.Lifecycle.Collect.{
  Lists, Collected, close_forwarders-files, write_healthy-file, Collected-after,
}

-- The daemon has written the file, with all the forwards, after its wait for SSH at the guest's address
-- has read a banner.
pub record WasPublished (vm_ip : Text) (first : System) (specs : List ForwardSpec) (s : System)
    : Type 0 where
  pub at : System
  pub before : Reach vm_ip first at
  pub after : Reach vm_ip at s
  pub wait : SshWait
  pub phase : at.phase ≡ serving wait
  pub answered : HasGreeted (wait.net (ssh_target vm_ip))
  pub facts : Facts
  pub states : Map ForwardState
  pub content :
      at.daemon.files.state_file ≡ object (insert (codes "forwards") (forwards states) facts)
  pub all_listed : All (Lists states) specs

module _ (vm_ip : Text) (first : System) (specs : List ForwardSpec) where
  -- What a phase says of the file.
  abbrev pub InStory : System → Phase → Type 0
  InStory s (starting rest states) =
      (s.daemon.files.state_file ≡ missing) × Collected specs rest states
  InStory s (serving wait) = WasPublished vm_ip first specs s
  InStory s degraded = s.daemon.files.state_file ≡ missing
  InStory s ended = (s.daemon.files.state_file ≡ missing) ⊎ WasPublished vm_ip first specs s

  later :
      {s t : System}
      → Step vm_ip s t
      → WasPublished vm_ip first specs s
      → WasPublished vm_ip first specs t
  later x w = record {
    at = w.at;
    before = w.before;
    after = next w.after x;
    wait = w.wait;
    phase = w.phase;
    answered = w.answered;
    facts = w.facts;
    states = w.states;
    content = w.content;
    all_listed = w.all_listed;
  }

  closed_file :
      (d : Daemon) (p : Phase)
      → d.files.state_file ≡ missing
      → (close_forwarders d).files.state_file ≡ missing
  closed_file d p e = ap (λ f. f.state_file) (close_forwarders-files d) ∙ e

  request-InStory :
      (os : Os) (req : ForwardRequest) (d : Daemon) (p : Phase)
      → BindsExactly os
      → Inv (record { daemon = d; phase = p })
      → InStory (record { daemon = d; phase = p }) p
      → InStory (record { daemon = (handle_forward_request os req d).1; phase = p }) p
  request-InStory os req d (starting rest states) x i (m, c) =
      (ap (λ y. y.files.state_file) (idle_request os req d i.phase.idle) ∙ m, c)
  request-InStory os req d (serving wait) x i w = later (request d (serving wait) os req x) w
  request-InStory os req d degraded x i m =
      ap (λ y. y.files.state_file) (idle_request os req d i.phase) ∙ m
  request-InStory os req d ended x i (inl m) =
      inl (ap (λ y. y.files.state_file) (idle_request os req d i.phase) ∙ m)
  request-InStory os req d ended x i (inr w) = inr (later (request d ended os req x) w)

  signal-InStory :
      (d : Daemon) (p : Phase)
      → InStory (record { daemon = d; phase = p }) p
      → InStory (record { daemon = close_forwarders d; phase = p }) p
  signal-InStory d (starting rest states) (m, c) = (closed_file d ended m, c)
  signal-InStory d (serving wait) w = later (signal d (serving wait)) w
  signal-InStory d degraded m = closed_file d ended m
  signal-InStory d ended (inl m) = inl (closed_file d ended m)
  signal-InStory d ended (inr w) = inr (later (signal d ended) w)

  bind-InStory :
      (d d' : Daemon) (os : Os) (spec : ForwardSpec) (rest : List ForwardSpec)
      (states : Map ForwardState) (f : Forwarder)
      → BindsExactly os
      → start_forwarder os spec.name loopback_ip spec.host_port vm_ip spec.guest_port d
        ≡ some (f, d')
      → Inv (record { daemon = d; phase = starting (spec ∷ rest) states })
      → (d.files.state_file ≡ missing) × Collected specs (spec ∷ rest) states
      → ((registered f d').files.state_file ≡ missing)
        × Collected specs rest (insert spec.name (state_of f) states)
  unfolding register_forwarder
  bind-InStory d d' os spec rest states f x h i (m, c) =
      let (q, l, e, g) =
        started_forwarder os spec.name loopback_ip spec.host_port vm_ip spec.guest_port d d' f h in
      let asked = exact_port os loopback_ip spec.host_port q x i.phase.valid.0.host_low l in
      (
        ap (λ y. y.files.state_file) e ∙ m,
        subst (λ y. Collected specs rest (insert spec.name (state_of y) states)) (sym g)
            (Collected-after specs rest states spec q i.phase.distinct.0 asked c),
      )

  ready-WasPublished :
      (d : Daemon) (wait : SshWait) (up : HasAnswered vm_ip wait) (os : FileCalls) (facts : Facts)
      (states : Map ForwardState) (f : Files)
      → write_healthy os facts states d.files ≡ (ok tt, f)
      → Reach vm_ip first (record { daemon = publish vm_ip f d; phase = serving wait })
      → Collected specs [] states
      → WasPublished vm_ip first specs (record { daemon = publish vm_ip f d; phase = serving wait })
  unfolding publish
  ready-WasPublished d wait up os facts states f h r c = record {
    at = _;
    before = r;
    after = here;
    wait = wait;
    phase = refl;
    answered = wait_for_ssh_service-HasGreeted _ wait.sleep 120 wait.now up.0 up.1;
    facts = facts;
    states = states;
    content = write_healthy-file os facts states d.files f (ok tt) h;
    all_listed = subst (All (Lists states)) (sym (append-nil c.done) ∙ c.whole) c.kept;
  }

  Step-InStory :
      {s t : System}
      → Step vm_ip s t
      → Reach vm_ip first s
      → Inv s
      → InStory s s.phase
      → InStory t t.phase
  Step-InStory (bind d d' os spec rest states f x h) r i w =
      bind-InStory d d' os spec rest states f x h i w
  Step-InStory (bind_failed d os spec rest states h) r i (m, c) = inl (closed_file d ended m)
  Step-InStory (ssh_ready d wait up os facts states f h) r i (m, c) =
      ready-WasPublished d wait up os facts states f h
        (next r (ssh_ready d wait up os facts states f h)) c
  Step-InStory (write_failed d wait up os facts states e f h) r i (m, c) = inl (
      closed_file (record d { files = f }) ended
        (write_healthy-file os facts states d.files f (err e) h ∙ m))
  Step-InStory (runtime_not_written d wait up states) r i (m, c) = inl (closed_file d ended m)
  Step-InStory (ssh_not_ready d wait down states) r i (m, c) = m
  Step-InStory (request d p os req x) r i w = request-InStory os req d p x i w
  Step-InStory (signal d p) r i w = signal-InStory d p w
  Step-InStory (vm_stopped d wait) r i w = inr (later (vm_stopped d wait) w)
  Step-InStory (degraded_vm_stopped d) r i m = inl (closed_file d ended m)

  pub Reach-InStory :
      {s : System} → Inv first → InStory first first.phase → Reach vm_ip first s → InStory s s.phase
  Reach-InStory i w here = w
  Reach-InStory i w (next r x) = Step-InStory x r (Reach-Inv vm_ip r i) (Reach-InStory i w r)

  written-WasPublished :
      (s : System) (p : Phase)
      → s.daemon.files.state_file ≢ missing
      → InStory s p
      → WasPublished vm_ip first specs s
  written-WasPublished s (starting rest states) n (m, c) = absurd (n m)
  written-WasPublished s (serving wait) n w = w
  written-WasPublished s degraded n m = absurd (n m)
  written-WasPublished s ended n (inl m) = absurd (n m)
  written-WasPublished s ended n (inr w) = w

pub none_listed :
    (specs : List ForwardSpec) → All (λ spec. lookup {V = ForwardState} spec.name [] ≡ none) specs
unfolding lookup
none_listed [] = tt
none_listed (spec ∷ specs) = (refl, none_listed specs)

-- If a daemon started with a parsed list of forwards and with no `vm-state.json`, and the file is there
-- at some time, then the daemon was serving at some time before, after its wait for SSH had read a banner at that
-- address, and at that time the file listed every forward of the list, at the guest's port and the host's port asked for.
pub Reach-WasPublished :
    (vm_ip forward_list : Text) (specs : List ForwardSpec) (f : Files) (s : System)
    → parse_forward_specs forward_list ≡ ok specs
    → f.state_file ≡ missing
    → Reach vm_ip (started f specs) s
    → s.daemon.files.state_file ≢ missing
    → WasPublished vm_ip (started f specs) specs s
Reach-WasPublished vm_ip forward_list specs f s h m r n =
    written-WasPublished vm_ip (started f specs) specs s s.phase n (
      Reach-InStory vm_ip (started f specs) specs (started-Inv forward_list specs f h)
        (m, record { done = []; whole = refl; kept = tt; unused = none_listed specs }) r)
