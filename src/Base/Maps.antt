-- ===== src/Base/Maps.antt =====
-- Go maps with string keys, as association lists without an order that the program relies on.
use Prim.Native.String.{String}
use mathlib.Core.Path.{◌≡◌, refl, subst}
use mathlib.Core.Option.{Option, none, some}
use mathlib.Core.List.{List, [], ◌∷◌, map, Perm, Mem, Nodup, mem-cons, Nodup-cons}
use mathlib.Core.Logic.Or
use mathlib.Core.List.Perm
use native.Mathlib.Omega.{arith}
use text.Mathlib.Text.{◌==◌ as str_eq}
use text.Mathlib.TextEquality.{eq_iff}
use stockyard.Base.Tests.{if◌then◌else◌, Bool-cases}
use mathlib.Core.Logic.{inl, inr}

abbrev pub Dict {ℓ} : Type ℓ → Type ℓ
Dict V = List (String × V)

module _ {ℓ} {V : Type ℓ} where
  -- `m[key]`, with whether the key is there
  unfoldable pub lookup : String → Dict V → Option V
  lookup key [] = none
  lookup key ((held, value) ∷ more) = if str_eq held key then some value else lookup key more

  -- `delete(m, key)`
  unfoldable pub erase : String → Dict V → Dict V
  erase key [] = []
  erase key ((held, value) ∷ more) =
      let rest = erase key more in if str_eq held key then rest else (held, value) ∷ rest

  -- `m[key] = value`
  unfoldable pub insert : String → V → Dict V → Dict V
  insert key value [] = (key, value) ∷ []
  insert key value ((held, old) ∷ more) =
      let rest = insert key value more in
      if str_eq held key then (key, value) ∷ more else (held, old) ∷ rest

  abbrev pub values : Dict V → List V
  values m = map (λ e. e.1) m

  -- A map holds a key at most once.
  abbrev pub UniqueKeys : Dict V → Type ℓ
  UniqueKeys [] = Unit
  UniqueKeys ((k, v) ∷ m) = (lookup k m ≡ none) × UniqueKeys m

  pub lookup-erase :
      (k j : String) (m : Dict V) → lookup j (erase k m) ≡ (if str_eq k j then none else lookup j m)
  unfolding lookup erase
  lookup-erase k j [] = ground arith
  lookup-erase k j ((i, w) ∷ m) =
      ground (arith, eq_iff k j, eq_iff i k, eq_iff i j, lookup-erase k j m)

  pub lookup-insert :
      (key name : String) (value : V) (m : Dict V)
      → lookup name (insert key value m) ≡ (if str_eq key name then some value else lookup name m)
  unfolding lookup insert
  lookup-insert key name value [] = ground arith
  lookup-insert key name value ((held, old) ∷ more) =
      ground (
        arith,
        lookup-insert key name value more,
        eq_iff held key,
        eq_iff key name,
        eq_iff held name,
      )

  pub insert-UniqueKeys :
      (k : String) (v : V) (m : Dict V) → UniqueKeys m → UniqueKeys (insert k v m)
  unfolding insert lookup
  insert-UniqueKeys k v [] u = (refl, tt)
  insert-UniqueKeys k v ((i, w) ∷ m) u =
      ground (arith, eq_iff i k, eq_iff k i, insert-UniqueKeys k v m u.1, lookup-insert k i v m)

  pub erase-UniqueKeys : (k : String) (m : Dict V) → UniqueKeys m → UniqueKeys (erase k m)
  unfolding erase lookup
  erase-UniqueKeys k [] u = tt
  erase-UniqueKeys k ((i, w) ∷ m) u = ground (arith, erase-UniqueKeys k m u.1, lookup-erase k i m)

  -- Writing a key that is not there adds one value.
  pub values-insert-Perm :
      (k : String) (v : V) (m : Dict V)
      → lookup k m ≡ none
      → Perm (values (insert k v m)) (v ∷ values m)
  unfolding insert lookup
  values-insert-Perm k v [] h = Perm.refl _
  values-insert-Perm k v ((i, w) ∷ m) h = elim (Bool-cases (str_eq i k)) [
    | inl hit ↦ ground arith
    | inr miss ↦ rw miss (
        Perm.trans (Perm.cons w (values-insert-Perm k v m (ground arith)))
          (Perm.swap v w (values m)))
  ]

  pub erase_absent : (k : String) (m : Dict V) → lookup k m ≡ none → erase k m ≡ m
  unfolding erase lookup
  erase_absent k [] h = refl
  erase_absent k ((i, w) ∷ m) h = ground (arith, erase_absent k m)

  -- Deleting a key that is there takes its value away, and no other.
  pub values-erase-Perm :
      (k : String) (v : V) (m : Dict V)
      → UniqueKeys m
      → lookup k m ≡ some v
      → Perm (values m) (v ∷ values (erase k m))
  unfolding erase lookup
  values-erase-Perm k v [] u h = ground arith
  values-erase-Perm k v ((i, w) ∷ m) u h = elim (Bool-cases (str_eq i k)) [
    | inl hit ↦
        rw (hit, erase_absent k m (ground (arith, eq_iff i k))) (Perm.cons' (ground arith) Perm.rfl)
    | inr miss ↦ rw miss (
        Perm.trans (Perm.cons w (values-erase-Perm k v m u.1 (ground arith)))
          (Perm.swap v w (values (erase k m))))
  ]

  pub lookup-mem : (k : String) (v : V) (m : Dict V) → lookup k m ≡ some v → Mem v (values m)
  unfolding lookup
  lookup-mem k v [] h = ground arith
  lookup-mem k v ((i, w) ∷ m) h = elim (Bool-cases (str_eq i k)) [
    | inl hit ↦ mem-cons.1 (Or.inl (ground arith))
    | inr miss ↦ mem-cons.1 (Or.inr (lookup-mem k v m (ground arith)))
  ]

  -- Where no value occurs twice, a value has one key.
  pub lookup_injective :
      (k j : String) (v : V) (m : Dict V)
      → Nodup (values m)
      → lookup k m ≡ some v
      → lookup j m ≡ some v
      → k ≡ j
  unfolding lookup
  lookup_injective k j v [] n p q = ground arith
  lookup_injective k j v ((i, w) ∷ m) n p q = elim (Bool-cases (str_eq i k)) [
    | inl hit ↦ elim (Bool-cases (str_eq i j)) [
      | inl same ↦ ground (arith, eq_iff i k, eq_iff i j)
      | inr other ↦ absurd (
          (Nodup-cons.0 n).0 (
            subst (λ u. Mem u (values m)) {x = v} (ground arith) (lookup-mem j v m (ground arith))))
    ]
    | inr miss ↦ elim (Bool-cases (str_eq i j)) [
      | inl hit ↦ absurd (
          (Nodup-cons.0 n).0 (
            subst (λ u. Mem u (values m)) {x = v} (ground arith) (lookup-mem k v m (ground arith))))
      | inr other ↦ lookup_injective k j v m (Nodup-cons.0 n).1 (ground arith) (ground arith)
    ]
  ]
