-- ===== src/Common/Maps.antt =====
-- Maps keyed by text (`HashMap<String, V>`), as association lists with distinct keys.
use mathlib.Core.Path.{◌≡◌, refl}
use mathlib.Core.Bool.{Bool, true, not, ◌&&◌}
use mathlib.Core.Option.{Option, none, some}
use mathlib.Core.List.{List, [], ◌∷◌}
use Prim.Native.Nat.{◌+◌, ◌≤◌}
use native.Mathlib.Omega.{arith}
use toolsite.Common.Tests.{if◌then◌else◌}
use toolsite.Common.Lists.{count}
use toolsite.Common.Texts.{Text, same, text_discrete}

abbrev pub Assoc {ℓ} : Type ℓ → Type ℓ
Assoc V = List (Text × V)

abbrev pub map_option {ℓ κ} : {A : Type ℓ} {B : Type κ} → (A → B) → Option A → Option B
map_option f none = none
map_option f (some a) = some (f a)

module _ {ℓ} {V : Type ℓ} where
  unfoldable pub lookup : Text → Assoc V → Option V
  lookup k [] = none
  lookup k ((j, v) ∷ m) = if same j k then some v else lookup k m

  unfoldable pub insert : Text → V → Assoc V → Assoc V
  insert k v [] = (k, v) ∷ []
  insert k v ((j, w) ∷ m) = if same j k then (j, v) ∷ m else (j, w) ∷ insert k v m

  unfoldable pub remove : Text → Assoc V → Assoc V
  remove k [] = []
  remove k ((j, v) ∷ m) = if same j k then remove k m else (j, v) ∷ remove k m

  -- A write through `get_mut`: nothing on a missing key.
  unfoldable pub modify : Text → (V → V) → Assoc V → Assoc V
  modify k f [] = []
  modify k f ((j, v) ∷ m) = if same j k then (j, f v) ∷ m else (j, v) ∷ modify k f m

  abbrev pub Distinct : Assoc V → Type ℓ
  Distinct [] = Unit
  Distinct ((k, v) ∷ m) = (lookup k m ≡ none) × Distinct m

  pub lookup-insert :
      (k j : Text) (v : V) (m : Assoc V)
      → lookup j (insert k v m) ≡ (if same k j then some v else lookup j m)
  unfolding lookup insert
  lookup-insert k j v [] = refl
  lookup-insert k j v ((i, w) ∷ m) = ground (arith, lookup-insert k j v m)

  pub lookup-remove :
      (k j : Text) (m : Assoc V) → lookup j (remove k m) ≡ (if same k j then none else lookup j m)
  unfolding lookup remove
  lookup-remove k j [] = ground arith
  lookup-remove k j ((i, w) ∷ m) = ground (arith, lookup-remove k j m)

  pub lookup-modify :
      (k j : Text) (f : V → V) (m : Assoc V)
      → lookup j (modify k f m) ≡ (if same k j then map_option f (lookup j m) else lookup j m)
  unfolding lookup modify
  lookup-modify k j f [] = ground arith
  lookup-modify k j f ((i, w) ∷ m) = ground (arith, lookup-modify k j f m)

  pub insert-Distinct : (k : Text) (v : V) (m : Assoc V) → Distinct m → Distinct (insert k v m)
  unfolding insert lookup
  insert-Distinct k v [] d = (refl, tt)
  insert-Distinct k v ((j, w) ∷ m) d =
      ground (arith, insert-Distinct k v m d.1, lookup-insert k j v m)

  pub modify-Distinct : (k : Text) (f : V → V) (m : Assoc V) → Distinct m → Distinct (modify k f m)
  unfolding modify lookup
  modify-Distinct k f [] d = tt
  modify-Distinct k f ((j, w) ∷ m) d =
      ground (arith, modify-Distinct k f m d.1, lookup-modify k j f m)

  pub remove-Distinct : (k : Text) (m : Assoc V) → Distinct m → Distinct (remove k m)
  unfolding remove lookup
  remove-Distinct k [] d = tt
  remove-Distinct k ((j, v) ∷ m) d = ground (arith, remove-Distinct k m d.1, lookup-remove k j m)

  -- The entries of other keys are all there are, where `k` is no key.
  count-others :
      (p : Text × V → Bool) (k : Text) (m : Assoc V)
      → lookup k m ≡ none
      → count (λ e. not (same e.0 k) && p e) m ≡ count p m
  unfolding lookup
  count-others p k [] h = refl
  count-others p k ((j, w) ∷ m) h = ground (arith, count-others p k m)

  -- A write at `k` counts for itself, beside the entries of the other keys.
  pub count-insert :
      (p : Text × V → Bool) (k : Text) (v : V) (m : Assoc V)
      → Distinct m
      → count p (insert k v m)
        ≤ count (λ e. not (same e.0 k) && p e) m + (if p (k, v) then 1 else 0)
  unfolding insert lookup
  count-insert p k v [] d = ground arith
  count-insert p k v ((j, w) ∷ m) d = ground (arith, count-insert p k v m d.1, count-others p k m)

  pub count-modify-le :
      (p : Text × V → Bool) (k : Text) (f : V → V) (m : Assoc V)
      → ((v : V) → lookup k m ≡ some v → p (k, f v) ≡ true → p (k, v) ≡ true)
      → count p (modify k f m) ≤ count p m
  unfolding modify lookup
  count-modify-le p k f [] h = omega arith
  count-modify-le p k f ((j, w) ∷ m) h = elim (text_discrete j k) [
    | yes q ↦ ground (arith, h w)
    | no n ↦ ground (arith, count-modify-le p k f m (λ v e. h v (ground arith)))
  ]

  pub lookup-eq_none_of_remove : (k : Text) (m : Assoc V) → lookup k m ≡ none → remove k m ≡ m
  unfolding lookup remove
  lookup-eq_none_of_remove k [] h = refl
  lookup-eq_none_of_remove k ((j, w) ∷ m) h = ground (arith, lookup-eq_none_of_remove k m)

-- What holds of every value.
module _ {ℓ κ} {V : Type ℓ} (P : V → Type κ) where
  abbrev pub AllValues : Assoc V → Type κ
  AllValues [] = Unit
  AllValues ((k, v) ∷ m) = P v × AllValues m

  abbrev pub IfSome : Option V → Type κ
  IfSome none = Unit
  IfSome (some v) = P v

  pub AllValues-lookup : (k : Text) (m : Assoc V) → AllValues m → IfSome (lookup k m)
  unfolding lookup
  AllValues-lookup k [] h = tt
  AllValues-lookup k ((j, v) ∷ m) h = ground (arith, AllValues-lookup k m h.1)

  pub AllValues-insert :
      (k : Text) (v : V) (m : Assoc V) → P v → AllValues m → AllValues (insert k v m)
  unfolding insert
  AllValues-insert k v [] p h = (p, tt)
  AllValues-insert k v ((j, w) ∷ m) p h = ground (arith, AllValues-insert k v m p h.1)

  pub AllValues-remove : (k : Text) (m : Assoc V) → AllValues m → AllValues (remove k m)
  unfolding remove
  AllValues-remove k [] h = tt
  AllValues-remove k ((j, w) ∷ m) h = ground (arith, AllValues-remove k m h.1)

  pub AllValues-modify :
      (k : Text) (f : V → V) (m : Assoc V)
      → ((v : V) → P v → P (f v))
      → AllValues m
      → AllValues (modify k f m)
  unfolding modify
  AllValues-modify k f [] g h = tt
  AllValues-modify k f ((j, w) ∷ m) g h = ground (arith, AllValues-modify k f m g h.1, g w)
