-- ===== src/Base/Results.antt =====
-- `Result`, and `?` on `Option`.
use mathlib.Core.Option.{Option, none, some}

pub data Result {ℓ κ} (A : Type ℓ) (E : Type κ) : Type (ℓ ⊔ κ) where
  ok : A → Result A E
  err : E → Result A E

abbrev pub map_err {ℓ κ} : {A : Type ℓ} {D E : Type κ} → (D → E) → Result A D → Result A E
map_err f (ok a) = ok a
map_err f (err e) = err (f e)

-- `.ok()`
abbrev pub ok? {ℓ κ} : {A : Type ℓ} {E : Type κ} → Result A E → Option A
ok? (ok a) = some a
ok? (err e) = none

infixl 5 ◌>>=◌
abbrev pub ◌>>=◌ {ℓ κ} : {A : Type ℓ} {B : Type κ} → Option A → (A → Option B) → Option B
none >>= f = none
some a >>= f = f a
