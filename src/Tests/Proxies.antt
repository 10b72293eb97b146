-- ===== src/Tests/Proxies.antt =====
-- launcher/mac/forwarding.go: a connection whose forwarder is closed while it is copied.
use exasol_local_vm.Prelude.{ℕ, ◌≤◌, codes, ◌≡◌, ◌≢◌, ◌⊎◌, refl, All}
use exasol_local_vm.Forward.Proxy.{
  copying, returned, sends, client_sends, chunk, dialled, client_cancelled, guest_cancelled, upload,
  upload_failed, download_failed, both_copied, ended, closed, Forwarding, head, accepted, cancel,
  close_listener, outside, Code, spawn, accept_closed, move, waited, Reachable, start, then_others,
  then_code,
}
use exasol_local_vm.Forward.Proxy.Safety.{HasReturned, Reachable-HasReturned}
use exasol_local_vm.Forward.Proxy.Drain.{
  steps_left, CodeSteps, none_yet, one_more, CodeSteps-steps_left,
}

-- A client has sent ten bytes, and four of them are with the guest.
abbrev uploading : (s : Forwarding) × Reachable s
uploading = (
  _,
  then_code
      (then_others
        (then_code (then_code (then_others start (accepted refl refl)) (spawn refl))
          (move (head (dialled refl))))
        (outside (head (client_sends (sends (codes "SELECT 42;") refl)))))
      (move (head (upload refl refl (chunk (codes "SELE") (codes "CT 42;") refl refl refl)))),
)

-- Then `Close` is called, up to its wait.
abbrev closing : (s : Forwarding) × Reachable s
closing = (_, then_others (then_others uploading.1 (cancel refl)) (close_listener refl))

copying_on : copying ≢ returned
copying_on e = cc

-- The sockets are shut, the copies fail, and the wait ends.
abbrev closed_steps : (t : Forwarding) × CodeSteps closing.0 7 t
closed_steps = (
  _,
  one_more
      (one_more
        (one_more
          (one_more
            (one_more
              (one_more (one_more none_yet (accept_closed refl refl))
                (move (head (client_cancelled refl copying_on refl))))
              (move (head (guest_cancelled refl refl refl))))
            (move (head (upload_failed refl refl refl))))
          (move (head (download_failed refl refl refl))))
        (move (head (both_copied refl refl refl))))
      (waited refl refl),
)

reach_all : {s t : Forwarding} {n : ℕ} → CodeSteps s n t → Reachable s → Reachable t
reach_all none_yet r = r
reach_all (one_more x y) r = then_code (reach_all x r) y

Reachable-HasReturned_example :
    (closed_steps.0.loop ≡ ended) × All HasReturned closed_steps.0.goroutines
Reachable-HasReturned_example =
    Reachable-HasReturned closed_steps.0 (reach_all closed_steps.1 closing.1) refl

CodeSteps-steps_left_example :
    (7 ≤ steps_left closing.0)
    × ((closed_steps.0.closing ≡ closed) ⊎ ((u : Forwarding) × Code closed_steps.0 u))
CodeSteps-steps_left_example =
    CodeSteps-steps_left closing.0 closed_steps.0 7 closing.1 refl closed_steps.1
