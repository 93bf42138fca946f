-- ===== src/Base/Measure.antt =====
-- What the steps of interruptible code do to a number that can be read off the state.
use Prim.Native.Nat.{ℕ, ◌≤◌}
use mathlib.Core.Bool.{Bool, true, false}
use native.Mathlib.Omega.{arith}
use data_csi.Base.Results.{Result, ok, err}
use data_csi.Base.Effects.{Exec}
use data_csi.Base.Tests.{if◌then◌else◌}
use data_csi.Base.Act.{Act, done, step, atomic, try, guard, ◌>>=◌, map_error}

-- No step makes the number greater, whatever runs between the steps.
pub data Keeps {S E A : Type 0} (d : S → ℕ) : Act S E A → Type 0 where
  returned : (r : Result E A) → Keeps d (done r)
  stepped :
      (f : S → S) (rest : S → Act S E A)
      → ((s : S) → d (f s) ≤ d s)
      → ((s : S) → Keeps d (rest s))
      → Keeps d (step f rest)

-- A step that starts with `b` at most ends with one at most, and so do the later ones, if what runs
-- between them does not make the number greater.
pub data Bounded {S E A : Type 0} (d : S → ℕ) : ℕ → Act S E A → Type 0 where
  returned : (b : ℕ) (r : Result E A) → Bounded d b (done r)
  stepped :
      (b : ℕ) (f : S → S) (rest : S → Act S E A) (next : S → ℕ)
      → ((s : S) → d s ≤ b → (next s ≤ 1) × (d (f s) ≤ next s))
      → ((s : S) → d s ≤ b → Bounded d (next s) (rest s))
      → Bounded d b (step f rest)

module _ {S E : Type 0} {d : S → ℕ} where
  pub Keeps-guard : (b : Bool) (e : E) → Keeps d (guard b e)
  Keeps-guard true e = Keeps.returned _
  Keeps-guard false e = Keeps.returned _

  pub Keeps-atomic :
      {A : Type 0} (m : Exec S E A) → ((s : S) → d (m s).1 ≤ d s) → Keeps d (atomic m)
  Keeps-atomic m h = Keeps.stepped _ _ h (λ s. Keeps.returned _)

  pub Keeps-try :
      {F A : Type 0} (m : Exec S F A) → ((s : S) → d (m s).1 ≤ d s) → Keeps d (try {E = E} m)
  Keeps-try m h = Keeps.stepped _ _ h (λ s. Keeps.returned _)

  pub Keeps-if :
      {A : Type 0} (b : Bool) {m n : Act S E A}
      → Keeps d m
      → Keeps d n
      → Keeps d (if b then m else n)
  Keeps-if true h g = h
  Keeps-if false h g = g

module _ {S E A B : Type 0} {d : S → ℕ} where
  pub Keeps-bind :
      {m : Act S E A} {k : A → Act S E B}
      → Keeps d m
      → ((a : A) → Keeps d (k a))
      → Keeps d (m >>= k)
  unfolding ◌>>=◌
  Keeps-bind (Keeps.returned (ok a)) g = g a
  Keeps-bind (Keeps.returned (err e)) g = Keeps.returned _
  Keeps-bind (Keeps.stepped f rest h t) g = Keeps.stepped _ _ h (λ s. Keeps-bind (t s) g)

  pub Bounded-bind :
      {m : Act S E A} {k : A → Act S E B} {b : ℕ}
      → b ≤ 1
      → Keeps d m
      → ((a : A) → Bounded d b (k a))
      → Bounded d b (m >>= k)
  unfolding ◌>>=◌
  Bounded-bind l (Keeps.returned (ok a)) g = g a
  Bounded-bind l (Keeps.returned (err e)) g = Bounded.returned _ _
  Bounded-bind {b} l (Keeps.stepped f rest h t) g =
      Bounded.stepped b _ _ (λ s. b) (λ s e. omega (arith, h s)) (λ s e. Bounded-bind l (t s) g)

module _ {S E F A : Type 0} {d : S → ℕ} (g : E → F) where
  pub Keeps-map_error : {m : Act S E A} → Keeps d m → Keeps d (map_error g m)
  unfolding map_error
  Keeps-map_error (Keeps.returned (ok a)) = Keeps.returned _
  Keeps-map_error (Keeps.returned (err e)) = Keeps.returned _
  Keeps-map_error (Keeps.stepped f rest h t) = Keeps.stepped _ _ h (λ s. Keeps-map_error (t s))

  pub Bounded-map_error : {b : ℕ} {m : Act S E A} → Bounded d b m → Bounded d b (map_error g m)
  unfolding map_error
  Bounded-map_error (Bounded.returned b (ok a)) = Bounded.returned _ _
  Bounded-map_error (Bounded.returned b (err e)) = Bounded.returned _ _
  Bounded-map_error (Bounded.stepped b f rest next h t) =
      Bounded.stepped b _ _ next h (λ s e. Bounded-map_error (t s e))

-- Steps of which none raises the first number, and which do not raise the second one if the first is
-- `b` at most when they start, whatever else runs between the steps and does not raise the first.
pub data Careful {S E A : Type 0} (d h : S → ℕ) : ℕ → Act S E A → Type 0 where
  returned : (b : ℕ) (r : Result E A) → Careful d h b (done r)
  stepped :
      (b : ℕ) (f : S → S) (rest : S → Act S E A) (next : S → ℕ)
      → ((s : S) → d (f s) ≤ d s)
      → ((s : S) → d s ≤ b → (d (f s) ≤ next s) × (h (f s) ≤ h s))
      → ((s : S) → d s ≤ b → Careful d h (next s) (rest s))
      → Careful d h b (step f rest)

module _ {S E A : Type 0} {d h : S → ℕ} where
  pub Careful-guard :
      (n : ℕ) (b : Bool) (e : E) (k : Unit {0} → Act S E A)
      → Careful d h n (k tt)
      → Careful d h n (guard b e >>= k)
  unfolding ◌>>=◌
  Careful-guard n true e k c = c
  Careful-guard n false e k c = Careful.returned _ _
