-- ===== src/Socket/Probing/Places.antt =====
-- Where each goroutine of `probeForwarders` is, at any time of a run.
use mathlib.Core.Path.{subst}
use mathlib.Core.Option
use exasol_local_vm.Prelude.{
  ℕ, Text, text_eq, text_eq_iff, false, Option, none, some, ◌≡◌, refl, sym, ◌∙◌, ap, inl, inr,
  Bool-cases,
}
use exasol_local_vm.Prelude.Map.{
  Map, lookup, insert, delete, lookup-insert, lookup-delete, lookup-insert_self, lookup-delete_self,
  lookup-map_values,
}
use exasol_local_vm.Forward.Registry.{Forwarder, Daemon}
use exasol_local_vm.Socket.{Dial, probe, probe_forwarders}
use exasol_local_vm.Socket.Probing.{
  Probes, Advance, dialed, stored, Runs, here, next, spawned, IsFinished,
}

module _ (dial : Dial) (d : Daemon) where
  -- Where the goroutine of one name is: it dials, it has the right answer, or it has stored it.
  data Place (k : Text) (s : Probes) : Type 0 where
    at_dial :
        lookup k s.dialing ≡ lookup k d.registry
        → lookup k s.answered ≡ none
        → lookup k s.result ≡ none
        → Place k s
    at_mutex :
        (f : Forwarder)
        → lookup k d.registry ≡ some f
        → lookup k s.dialing ≡ none
        → lookup k s.answered ≡ some (probe dial f)
        → lookup k s.result ≡ none
        → Place k s
    at_end :
        (f : Forwarder)
        → lookup k d.registry ≡ some f
        → lookup k s.dialing ≡ none
        → lookup k s.answered ≡ none
        → lookup k s.result ≡ some (record { state = probe dial f })
        → Place k s

  same_state : {o : Option Text} {a b : Text} → o ≡ some a → o ≡ some b → a ≡ b
  same_state h i = cc

  -- A step takes the goroutine of its own name on, and leaves that of any other name where it is.
  dialed_own :
      (k : Text) (f : Forwarder) (s : Probes)
      → lookup k s.dialing ≡ some f
      → Place k s
      → Place k
          (record s { dialing = delete k s.dialing; answered = insert k (probe dial f) s.answered })
  dialed_own k f s found (at_dial a b c) =
      at_mutex f (sym a ∙ found) (lookup-delete_self k s.dialing)
        (lookup-insert_self k (probe dial f) s.answered) c
  dialed_own k f s found (at_mutex g a b c e) = cc
  dialed_own k f s found (at_end g a b c e) = cc

  stored_own :
      (k state : Text) (s : Probes)
      → lookup k s.answered ≡ some state
      → Place k s
      → Place k (record s {
        answered = delete k s.answered;
        result = insert k (record { state = state }) s.result;
      })
  stored_own k state s found (at_dial a b c) = cc
  stored_own k state s found (at_mutex g a b c e) = at_end g a b (lookup-delete_self k s.answered) (
      lookup-insert_self k (record { state = state }) s.result
      ∙ ap (λ x. some (record { state = x })) (same_state found c))
  stored_own k state s found (at_end g a b c e) = cc

  other_Place :
      (k : Text) (s t : Probes)
      → lookup k t.dialing ≡ lookup k s.dialing
      → lookup k t.answered ≡ lookup k s.answered
      → lookup k t.result ≡ lookup k s.result
      → Place k s
      → Place k t
  other_Place k s t x y z (at_dial a b c) = at_dial (x ∙ a) (y ∙ b) (z ∙ c)
  other_Place k s t x y z (at_mutex f a b c e) = at_mutex f a (x ∙ b) (y ∙ c) (z ∙ e)
  other_Place k s t x y z (at_end f a b c e) = at_end f a (x ∙ b) (y ∙ c) (z ∙ e)

  deleted :
      {V : Type 0} (k name : Text) (m : Map V)
      → text_eq k name ≡ false
      → lookup k (delete name m) ≡ lookup k m
  deleted k name m other = rw (lookup-delete, other)

  inserted :
      {V : Type 0} (k name : Text) (v : V) (m : Map V)
      → text_eq k name ≡ false
      → lookup k (insert name v m) ≡ lookup k m
  inserted k name v m other = rw (lookup-insert, other)

  Advance-Place : (k : Text) {s t : Probes} → Advance dial s t → Place k s → Place k t
  Advance-Place k {s = s} (dialed name f found) place = elim (Bool-cases (text_eq k name)) [
    | inl same ↦
        let e = (text_eq_iff k name).0 same in
        subst
          (λ n. Place k (record s {
            dialing = delete n s.dialing;
            answered = insert n (probe dial f) s.answered;
          }))
          e (dialed_own k f s (ap (λ n. lookup n s.dialing) e ∙ found) place)
    | inr other ↦ other_Place k s _ (deleted k name _ other) (inserted k name _ _ other) refl place
  ]
  Advance-Place k {s = s} (stored name state found) place = elim (Bool-cases (text_eq k name)) [
    | inl same ↦
        let e = (text_eq_iff k name).0 same in
        subst
          (λ n. Place k (record s {
            answered = delete n s.answered;
            result = insert n (record { state = state }) s.result;
          }))
          e (stored_own k state s (ap (λ n. lookup n s.answered) e ∙ found) place)
    | inr other ↦ other_Place k s _ refl (deleted k name _ other) (inserted k name _ _ other) place
  ]

  Runs-Place : (k : Text) {s : Probes} {n : ℕ} → Runs dial (spawned d) n s → Place k s
  unfolding lookup
  Runs-Place k here = at_dial refl refl refl
  Runs-Place k (next r m) = Advance-Place k m (Runs-Place k r)

  answer-Place :
      (k : Text) (s : Probes)
      → IsFinished s
      → Place k s
      → lookup k s.result ≡ Option.map (λ f. record { state = probe dial f }) (lookup k d.registry)
  unfolding lookup
  answer-Place k s (a, b) (at_dial x y z) =
      z ∙ sym (ap (Option.map _) (sym x ∙ ap (λ m. lookup k m) a))
  answer-Place k s (a, b) (at_mutex f w x y z) =
      let e : none ≡ some (probe dial f) = sym (ap (λ m. lookup k m) b) ∙ y in cc
  answer-Place k s (a, b) (at_end f w x y z) = z ∙ sym (ap (Option.map _) w)

  pub finished-probe_forwarders :
      {s : Probes} {n : ℕ}
      → Runs dial (spawned d) n s
      → IsFinished s
      → (k : Text) → lookup k s.result ≡ lookup k (probe_forwarders dial d)
  unfolding probe_forwarders
  finished-probe_forwarders {s} r done k =
      answer-Place k s done (Runs-Place k r) ∙ sym (lookup-map_values _ k d.registry)
