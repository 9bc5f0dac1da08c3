-- ===== src/Base/Maps.antt =====
-- `HashMap` as an association list, for any type of keys with an equality test. The laws stand in
-- `if` form.
use mathlib.Core.Path.{◌≡◌, refl}
use mathlib.Core.List.{List, [], ◌∷◌}
use mathlib.Core.Option.{Option, none, some}
use native.Mathlib.Omega.{arith}
use fake_notify.Base.Tests.{Eq, ◌==◌, if◌then◌else◌}

abbrev pub Map {ℓ κ} : Type ℓ → Type κ → Type (ℓ ⊔ κ)
Map K V = List (K × V)

module _ {ℓ κ} {K : Type ℓ} {V : Type κ} ⦃e : Eq K⦄ where
  unfoldable pub get : Map K V → K → Option V
  get [] k = none
  get ((j, v) ∷ m) k = let rest = get m k in if j == k then some v else rest

  -- Drops every entry with the key.
  unfoldable pub remove : Map K V → K → Map K V
  remove [] k = []
  remove ((j, v) ∷ m) k = let rest = remove m k in if j == k then rest else (j, v) ∷ rest

  unfoldable pub insert : Map K V → K → V → Map K V
  unfolding remove
  insert m k v = (k, v) ∷ remove m k

  -- A write through `get_mut`: nothing, where the key is missing.
  unfoldable pub modify : Map K V → K → (V → V) → Map K V
  modify [] k f = []
  modify ((j, v) ∷ m) k f =
      let rest = modify m k f in if j == k then (j, f v) ∷ rest else (j, v) ∷ rest

  pub get-remove : (m : Map K V) (k q : K) → get (remove m k) q ≡ (if k == q then none else get m q)
  unfolding get remove
  get-remove [] k q = ground arith
  get-remove ((j, v) ∷ m) k q =
      ground (arith, get-remove m k q, e.beq_lem j k, e.beq_lem k q, e.beq_lem j q)

  pub get-insert :
      (m : Map K V) (k : K) (v : V) (q : K)
      → get (insert m k v) q ≡ (if k == q then some v else get m q)
  unfolding get insert
  get-insert m k v q = ground (arith, get-remove m k q)

abbrev pub map_some {ℓ κ} : {A : Type ℓ} {B : Type κ} → (A → B) → Option A → Option B
map_some f none = none
map_some f (some a) = some (f a)

module _ {ℓ κ} {K : Type ℓ} {V : Type κ} ⦃e : Eq K⦄ where
  pub get-modify :
      (m : Map K V) (k : K) (f : V → V) (q : K)
      → get (modify m k f) q ≡ (if k == q then map_some f (get m q) else get m q)
  unfolding get modify
  get-modify [] k f q = ground arith
  get-modify ((j, v) ∷ m) k f q =
      ground (arith, get-modify m k f q, e.beq_lem j k, e.beq_lem k q, e.beq_lem j q)

  pub modify_absent : (m : Map K V) (k : K) (f : V → V) → get m k ≡ none → modify m k f ≡ m
  unfolding get modify
  modify_absent [] k f h = refl
  modify_absent ((j, v) ∷ m) k f h = ground (arith, modify_absent m k f)

  remove_again : (m : Map K V) (k : K) → remove (remove m k) k ≡ remove m k
  unfolding remove
  remove_again [] k = refl
  remove_again ((j, v) ∷ m) k = ground (arith, remove_again m k, e.beq_lem j k)

  -- The second of two values for a key is the one that stays.
  pub insert_again : (m : Map K V) (k : K) (v w : V) → insert (insert m k v) k w ≡ insert m k w
  unfolding insert remove
  insert_again m k v w = ground (arith, remove_again m k, e.beq_lem k k)
