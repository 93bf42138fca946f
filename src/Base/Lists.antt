-- ===== src/Base/Lists.antt =====
-- Lists over the native numbers, and a property of each element.
use Prim.Native.Nat.{ℕ, suc}
use mathlib.Core.List.{List, [], ◌∷◌, ◌++◌}

abbrev pub length {ℓ} : {A : Type ℓ} → List A → ℕ
length [] = 0
length (x ∷ xs) = suc (length xs)

abbrev pub All {ℓ κ} : {A : Type ℓ} → (A → Type κ) → List A → Type κ
All P [] = Unit
All P (x ∷ xs) = P x × All P xs

module _ {ℓ κ} {A : Type ℓ} (P : A → Type κ) where
  pub All-middle : (before after : List A) (x : A) → All P (before ++ (x ∷ after)) → P x
  All-middle [] after x (p, h) = p
  All-middle (y ∷ before) after x (p, h) = All-middle before after x h

  -- An element in the middle is replaced, or left out.
  pub All-replaced :
      (before after : List A) (x y : A)
      → P y
      → All P (before ++ (x ∷ after))
      → All P (before ++ (y ∷ after))
  All-replaced [] after x y q (p, h) = (q, h)
  All-replaced (z ∷ before) after x y q (p, h) = (p, All-replaced before after x y q h)

  pub All-dropped :
      (before after : List A) (x : A) → All P (before ++ (x ∷ after)) → All P (before ++ after)
  All-dropped [] after x (p, h) = h
  All-dropped (z ∷ before) after x (p, h) = (p, All-dropped before after x h)

module _ {ℓ κ} {A : Type ℓ} (P Q R : A → Type κ) where
  pub All-zip : ((x : A) → P x → Q x → R x) → (xs : List A) → All P xs → All Q xs → All R xs
  All-zip f [] a b = tt
  All-zip f (x ∷ xs) (p, a) (q, b) = (f x p q, All-zip f xs a b)
