-- ===== src/Forward/Registry/WellFormed.antt =====
-- The registry's invariant: keys and identities are pairwise different, every entry is a valid
-- forward on a loopback address, and the open listeners are exactly the registered ones.
use exasol_local_vm.Prelude.{
  ℕ, suc, ◌<◌, Text, text_eq, text_eq_iff, Bool, true, false, not, ◌&&◌, ◌||◌, [], ◌∷◌, none, some,
  ◌==◌, ◌≡◌, refl, ◌⊎◌, inl, inr, arith, All, All-map, Bool-cases, pos,
}
use exasol_local_vm.Prelude.Map.{
  Map, lookup, insert, delete, lookup-insert, lookup-delete, lookup-delete_self, All-insert,
  All-delete, All-lookup,
}
use exasol_local_vm.Std.Net.{canonical_loopback}
use exasol_local_vm.Forward.Spec.{ForwardSpec, IsValid}
use exasol_local_vm.Forward.Registry.{
  Forwarder, Daemon, opened, close_forwarder, register_forwarder, unregister,
}

unfoldable pub has_id : ℕ → Map Forwarder → Bool
has_id i [] = false
has_id i ((k, f) ∷ m) = f.id == i || has_id i m

abbrev pub Distinct : Map Forwarder → Type 0
Distinct [] = Unit
Distinct ((k, f) ∷ m) = (lookup k m ≡ none) × (has_id f.id m ≡ false) × Distinct m

has_id-insert :
    (i : ℕ) (k : Text) (f : Forwarder) (m : Map Forwarder)
    → lookup k m ≡ none
    → has_id i (insert k f m) ≡ (f.id == i || has_id i m)
unfolding has_id insert lookup
has_id-insert i k f [] h = refl
has_id-insert i k f ((j, g) ∷ m) h = ground (arith, has_id-insert i k f m)

has_id-delete_absent :
    (i : ℕ) (k : Text) (m : Map Forwarder) → lookup k m ≡ none → has_id i (delete k m) ≡ has_id i m
unfolding has_id delete lookup
has_id-delete_absent i k [] h = refl
has_id-delete_absent i k ((j, g) ∷ m) h = ground (arith, has_id-delete_absent i k m)

pub has_id-lookup :
    (k : Text) (f : Forwarder) (m : Map Forwarder) → lookup k m ≡ some f → has_id f.id m ≡ true
unfolding has_id lookup
has_id-lookup k f [] h = cc
has_id-lookup k f ((j, g) ∷ m) h = ground (arith, has_id-lookup k f m)

has_id-delete :
    (i : ℕ) (k : Text) (f : Forwarder) (m : Map Forwarder)
    → Distinct m
    → lookup k m ≡ some f
    → has_id i (delete k m) ≡ (has_id i m && not (f.id == i))
unfolding has_id delete lookup
has_id-delete i k f [] d h = cc
has_id-delete i k f ((j, g) ∷ m) (hk, hi, d) h = ground (
  arith,
  text_eq_iff k j,
  has_id-delete_absent i k m,
  has_id-delete i k f m d,
  has_id-lookup k f m,
)

insert-Distinct :
    (k : Text) (f : Forwarder) (m : Map Forwarder)
    → Distinct m
    → lookup k m ≡ none
    → has_id f.id m ≡ false
    → Distinct (insert k f m)
unfolding insert lookup has_id
insert-Distinct k f [] d h i = (refl, refl, tt)
insert-Distinct k f ((j, g) ∷ m) (hk, hi, d) h i = elim (Bool-cases (text_eq k j)) [
  | inl same ↦ absurd (ground arith)
  | inr other ↦ rw other (
    ground (arith, lookup-insert j k f m, text_eq_iff k j, text_eq_iff j k),
    ground (arith, has_id-insert g.id k f m),
    insert-Distinct k f m d (ground arith) (ground arith),
  )
]

has_id-delete_le :
    (i : ℕ) (k : Text) (m : Map Forwarder) → has_id i m ≡ false → has_id i (delete k m) ≡ false
unfolding has_id delete
has_id-delete_le i k [] h = refl
has_id-delete_le i k ((j, g) ∷ m) h = ground (arith, has_id-delete_le i k m)

delete-Distinct : (k : Text) (m : Map Forwarder) → Distinct m → Distinct (delete k m)
unfolding delete lookup
delete-Distinct k [] d = tt
delete-Distinct k ((j, g) ∷ m) (hk, hi, d) = elim (Bool-cases (text_eq k j)) [
  | inl same ↦ rw same (delete-Distinct k m d)
  | inr other ↦
      rw other
        (ground (arith, lookup-delete j k m), has_id-delete_le g.id k m hi, delete-Distinct k m d)
]

abbrev spec_of : Forwarder → ForwardSpec
spec_of f = record { name = f.name; guest_port = f.guest_port; host_port = f.requested_port }

-- One entry: its key is the forwarder's name, the settings are valid, the address is a canonical
-- loopback address, and a requested port other than 0 is the one that is bound.
pub record IsEntry (next : ℕ) (e : Text × Forwarder) : Type 0 where
  pub keyed : e.1.name ≡ e.0
  pub valid : IsValid (spec_of e.1)
  pub loopback : canonical_loopback e.1.host_ip ≡ some e.1.host_ip
  pub exact : (e.1.requested_port ≡ pos 0) ⊎ (e.1.requested_port ≡ pos e.1.port)
  pub old : e.1.id < next

pub record WellFormed (d : Daemon) : Type 0 where
  pub distinct : Distinct d.registry
  pub entries : All (IsEntry d.next_id) d.registry
  pub listeners : (i : ℕ) → d.listening i ≡ has_id i d.registry

pub has_id-fresh : (n : ℕ) (m : Map Forwarder) → All (IsEntry n) m → has_id n m ≡ false
unfolding has_id
has_id-fresh n [] h = refl
has_id-fresh n ((k, f) ∷ m) (hf, h) = let lt = hf.old in ground (arith, has_id-fresh n m h)

-- A forwarder with a new identity is added under a name that is free.
pub register-WellFormed :
    (f : Forwarder) (d : Daemon)
    → WellFormed d
    → f.id ≡ d.next_id
    → lookup f.name d.registry ≡ none
    → IsEntry (suc d.next_id) (f.name, f)
    → WellFormed (register_forwarder f.name f (opened d))
unfolding register_forwarder
register-WellFormed f d w e h v = record {
  distinct =
      insert-Distinct f.name f d.registry w.distinct h
        (rw e (has_id-fresh d.next_id d.registry w.entries));
  entries = All-insert _ f.name f d.registry v (
      All-map _ _
        (λ x (p : IsEntry d.next_id x). record {
          keyed = p.keyed;
          valid = p.valid;
          loopback = p.loopback;
          exact = p.exact;
          old = let lt = p.old in omega arith;
        })
        d.registry w.entries);
  listeners = λ i. ground (arith, has_id-insert i f.name f d.registry h, w.listeners i);
}

-- A registered forwarder is removed and its listener closed.
pub unregister-WellFormed :
    (k : Text) (f : Forwarder) (d : Daemon)
    → WellFormed d
    → lookup k d.registry ≡ some f
    → WellFormed (close_forwarder f (unregister k d))
unfolding close_forwarder unregister
unregister-WellFormed k f d w h = record {
  distinct = delete-Distinct k d.registry w.distinct;
  entries = All-delete _ k d.registry w.entries;
  listeners = λ i. ground (arith, has_id-delete i k f d.registry w.distinct h, w.listeners i);
}

-- A forwarder that was taken out of the registry, its listener still open, is put back.
pub restore-WellFormed :
    (k : Text) (f : Forwarder) (d : Daemon)
    → WellFormed d
    → lookup k d.registry ≡ some f
    → WellFormed (register_forwarder k f (unregister k d))
unfolding register_forwarder unregister
restore-WellFormed k f d w h = record {
  distinct =
      insert-Distinct k f (delete k d.registry) (delete-Distinct k d.registry w.distinct)
        (lookup-delete_self k d.registry)
        (ground (arith, has_id-delete f.id k f d.registry w.distinct h));
  entries =
      All-insert _ k f (delete k d.registry) (All-lookup _ k d.registry w.entries h)
        (All-delete _ k d.registry w.entries);
  listeners = λ i. ground (
    arith,
    has_id-insert i k f (delete k d.registry) (lookup-delete_self k d.registry),
    has_id-delete i k f d.registry w.distinct h,
    has_id-lookup k f d.registry h,
    w.listeners i,
  );
}
