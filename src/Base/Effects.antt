-- ===== src/Base/Effects.antt =====
-- Code that reads and changes a state and may return early with an error. What was changed before
-- the error stays changed, so the state comes back beside the error too.
use mathlib.Core.Bool.{Bool, true, false}
use data_csi.Base.Results.{Result, ok, err}

abbrev pub Exec : Type 0 → Type 0 → Type 0 → Type 0
Exec S E A = S → Result E A × S

module _ {S E : Type 0} where
  abbrev pub pure : {A : Type 0} → A → Exec S E A
  pure a s = (ok a, s)

  abbrev pub gets : {A : Type 0} → (S → A) → Exec S E A
  gets f s = (ok (f s), s)

  abbrev pub lift : {A : Type 0} → Result E A → Exec S E A
  lift r s = (r, s)

  -- `if !condition { return nil, e }`
  abbrev pub guard : Bool → E → Exec S E (Unit {0})
  guard true e s = (ok tt, s)
  guard false e s = (err e, s)

module _ {S E A B : Type 0} where
  abbrev pub continue : (A → Exec S E B) → Result E A × S → Result E B × S
  continue f (ok a, s) = f a s
  continue f (err e, s) = (err e, s)

  infixl 5 ◌>>=◌ ◌>>◌
  abbrev pub ◌>>=◌ : Exec S E A → (A → Exec S E B) → Exec S E B
  ◌>>=◌ m f s = continue f (m s)

  abbrev pub ◌>>◌ : Exec S E A → Exec S E B → Exec S E B
  ◌>>◌ m k s = continue (λ _. k) (m s)

module _ {S E F A : Type 0} where
  abbrev pub mapped : (E → F) → Result E A × S → Result F A × S
  mapped f (ok a, s) = (ok a, s)
  mapped f (err e, s) = (err (f e), s)

  -- `if err := m; err != nil { return nil, f(err) }`
  abbrev pub map_error : (E → F) → Exec S E A → Exec S F A
  map_error f m s = mapped f (m s)
