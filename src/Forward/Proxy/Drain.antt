-- ===== src/Forward/Proxy/Drain.antt =====
-- `Close` ends: its wait for the goroutines cannot last.
use mathlib.Core.Path.{subst}
use exasol_local_vm.Prelude.{
  sym, not, ℕ, suc, ◌+◌, ◌≤◌, ◌<◌, Bool, true, false, List, [], ◌∷◌, ◌≡◌, ◌≢◌, refl, arith, All,
  ◌⊎◌, inl, inr, Bool-cases,
}
use exasol_local_vm.Forward.Proxy.{
  End, live, lost, shut, is_shut, is_over, Stage, dialing, copying, returned, Proxied, Move,
  dialled, dial_failed, client_cancelled, guest_cancelled, upload, uploaded, upload_failed,
  download, downloaded, download_failed, both_copied, Loop, accepting, holding, ended, Closing,
  unclosed, cancelling, draining, closed, is_cancelled, Forwarding, Somewhere, head, tail,
  goroutine_count, Code, spawn, accept_closed, move, waited, Reachable, then_code,
}
use exasol_local_vm.Forward.Proxy.Flows.{flow_weight, Chunk-weight, AtEnd-weight}
use exasol_local_vm.Forward.Proxy.Invariant.{IsSound, is_idle, Reachable-Inv}

abbrev end_weight : End → ℕ
end_weight live = 1
end_weight lost = 1
end_weight shut = 0

abbrev staged_weight : Stage → ℕ → ℕ
staged_weight dialing n = 3 + n
staged_weight copying n = 1 + n
staged_weight returned n = 0

-- How many steps a goroutine has left, at most.
abbrev pub weight : Proxied → ℕ
weight c =
    staged_weight c.stage
      (end_weight c.client + end_weight c.guest + flow_weight c.up + flow_weight c.down)

abbrev pub total_weight : List Proxied → ℕ
total_weight [] = 0
total_weight (c ∷ l) = weight c + total_weight l

abbrev loop_weight : Loop → ℕ
loop_weight accepting = 1
loop_weight holding = 8
loop_weight ended = 0

abbrev closing_weight : Closing → ℕ
closing_weight unclosed = 1
closing_weight cancelling = 1
closing_weight draining = 1
closing_weight closed = 0

abbrev pub steps_left : Forwarding → ℕ
steps_left s = closing_weight s.closing + loop_weight s.loop + total_weight s.goroutines

staged_lt :
    (stage : Stage) (a b : ℕ)
    → stage ≢ returned
    → a < b
    → staged_weight stage a < staged_weight stage b
staged_lt dialing a b n lt = omega arith
staged_lt copying a b n lt = omega arith
staged_lt returned a b n lt = absurd (n refl)

end_lt : (e : End) → is_shut e ≡ false → end_weight e ≡ 1
end_lt live h = refl
end_lt lost h = refl
end_lt shut h = absurd (ground arith)

Move-weight :
    {cancelled : Bool} {c d : Proxied} → Move cancelled c d → IsSound c → weight d < weight c
Move-weight (dialled e) h = ground (arith, h.fits)
Move-weight (dial_failed e) h = ground arith
Move-weight {c} (client_cancelled x n e) h =
    staged_lt c.stage _ _ n (omega (arith, end_lt c.client e))
Move-weight (guest_cancelled x e n) h = ground arith
Move-weight (upload e l x) h = ground (arith, Chunk-weight x)
Move-weight (uploaded e l x) h = ground (arith, AtEnd-weight x)
Move-weight (upload_failed e l x) h = ground arith
Move-weight (download e l x) h = ground (arith, Chunk-weight x)
Move-weight (downloaded e l x) h = ground (arith, AtEnd-weight x)
Move-weight (download_failed e l x) h = ground arith
Move-weight (both_copied e a b) h = ground arith

Somewhere-weight :
    {cancelled : Bool} {l m : List Proxied}
    → Somewhere (Move cancelled) l m
    → All IsSound l
    → total_weight m < total_weight l
Somewhere-weight (head x) (h, hs) = omega (arith, Move-weight x h)
Somewhere-weight (tail s) (h, hs) = omega (arith, Somewhere-weight s hs)

-- Each step of the forwarder's own code brings it nearer to its end.
Code-steps_left :
    {s t : Forwarding} → Code s t → All IsSound s.goroutines → steps_left t < steps_left s
Code-steps_left (spawn e) h = ground arith
Code-steps_left (accept_closed e l) h = ground arith
Code-steps_left (move x) h = omega (arith, Somewhere-weight x h)
Code-steps_left (waited e n) h = ground arith

-- A goroutine whose context is cancelled is over or can go on, whatever the others do.
copying_goes :
    (c : Proxied)
    → c.stage ≡ copying
    → not (is_idle c.up.copy) ≡ true
    → not (is_idle c.down.copy) ≡ true
    → (d : Proxied) × Move true c d
copying_goes c e u v = elim (Bool-cases (is_shut c.client)) [
  | inr open_client ↦ (_, client_cancelled refl (λ x. cc) open_client)
  | inl client_shut ↦ elim (Bool-cases (is_shut c.guest)) [
    | inr open_guest ↦ (_, guest_cancelled refl e open_guest)
    | inl guest_shut ↦ elim (Bool-cases (is_over c.up.copy)) [
      | inr going ↦ (_, upload_failed e (ground arith) (ground arith))
      | inl up_over ↦ elim (Bool-cases (is_over c.down.copy)) [
        | inr going ↦ (_, download_failed e (ground arith) (ground arith))
        | inl down_over ↦ (_, both_copied e up_over down_over)
      ]
    ]
  ]
]

cancelled_goes :
    (stage : Stage) (c : Proxied)
    → c.stage ≡ stage
    → IsSound c
    → (c.stage ≡ returned) ⊎ ((d : Proxied) × Move true c d)
cancelled_goes dialing c e h = inr (_, dial_failed e)
cancelled_goes copying c e h =
    inr (copying_goes c e (ground (arith, h.fits)) (ground (arith, h.fits)))
cancelled_goes returned c e h = inl e

some_goes :
    (l : List Proxied)
    → All IsSound l
    → (goroutine_count l ≡ 0) ⊎ ((m : List Proxied) × Somewhere (Move true) l m)
some_goes [] h = inl refl
some_goes (c ∷ l) (h, hs) = elim (cancelled_goes c.stage c refl h) [
  | inr (d, x) ↦ inr (d ∷ l, head x)
  | inl over ↦ elim (some_goes l hs) [
    | inr (m, x) ↦ inr (c ∷ m, tail x)
    | inl none_left ↦ inl (ground arith)
  ]
]

draining_goes :
    (loop : Loop) (s : Forwarding)
    → s.loop ≡ loop
    → s.closing ≡ draining
    → All IsSound s.goroutines
    → (t : Forwarding) × Code s t
draining_goes accepting s e d h = (_, accept_closed e (ground arith))
draining_goes holding s e d h = (_, spawn e)
draining_goes ended s e d h = elim (some_goes s.goroutines h) [
  | inl none_left ↦ (_, waited d (ground arith))
  | inr (m, x) ↦ (
    record s { goroutines = m },
    move (subst (λ k. Somewhere (Move (is_cancelled k)) s.goroutines m) (sym d) x),
  )
]

-- A run of the forwarder's own code, with its number of steps.
pub data CodeSteps (s : Forwarding) : ℕ → Forwarding → Type 0 where
  none_yet : CodeSteps s 0 s
  one_more : {n : ℕ} {t u : Forwarding} → CodeSteps s n t → Code t u → CodeSteps s (suc n) u

-- `Close` is in its wait, or back.
abbrev is_draining : Closing → Bool
is_draining unclosed = false
is_draining cancelling = false
is_draining draining = true
is_draining closed = true

Code-is_draining :
    {s t : Forwarding} → Code s t → is_draining s.closing ≡ true → is_draining t.closing ≡ true
Code-is_draining (spawn e) h = h
Code-is_draining (accept_closed e l) h = h
Code-is_draining (move x) h = h
Code-is_draining (waited e n) h = refl

record Draining (s : Forwarding) (n : ℕ) (t : Forwarding) : Type 0 where
  reachable : Reachable t
  waiting : is_draining t.closing ≡ true
  fewer : n + steps_left t ≤ steps_left s

CodeSteps-Draining :
    {s t : Forwarding} {n : ℕ}
    → CodeSteps s n t
    → Reachable s
    → is_draining s.closing ≡ true
    → Draining s n t
CodeSteps-Draining none_yet r h = record { reachable = r; waiting = h; fewer = omega arith }
CodeSteps-Draining (one_more x y) r h =
    let d = CodeSteps-Draining x r h in
    record {
      reachable = then_code d.reachable y;
      waiting = Code-is_draining y d.waiting;
      fewer =
          (let a = d.fewer in omega (arith, Code-steps_left y (Reachable-Inv d.reachable).sound));
    }

draining_or_closed : (k : Closing) → is_draining k ≡ true → (k ≡ draining) ⊎ (k ≡ closed)
draining_or_closed unclosed h = cc
draining_or_closed cancelling h = cc
draining_or_closed draining h = inl refl
draining_or_closed closed h = inr refl

-- Once `Close` waits, whatever connections there are and in whatever state, a run of the forwarder's
-- own code has at most `steps_left` steps, and does not stop before `Close` is back: until then, some
-- goroutine or the wait can take a step.
pub CodeSteps-steps_left :
    (s t : Forwarding) (n : ℕ)
    → Reachable s
    → s.closing ≡ draining
    → CodeSteps s n t
    → (n ≤ steps_left s) × ((t.closing ≡ closed) ⊎ ((u : Forwarding) × Code t u))
CodeSteps-steps_left s t n r e x =
    let d = CodeSteps-Draining x r (ground arith) in
    let a = d.fewer in
    (
      omega arith,
      elim (draining_or_closed t.closing d.waiting) [
        | inr back ↦ inl back
        | inl going ↦ inr (draining_goes t.loop t refl going (Reachable-Inv d.reachable).sound)
      ],
    )
