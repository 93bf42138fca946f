-- ===== src/Base/Act.antt =====
-- Code that other code may run between: it stops after each atomic step, and goes on from the state
-- that it then finds.
use mathlib.Core.Path.{◌≡◌, refl, ap, ◌∙◌}
use mathlib.Core.Bool.{Bool, true, false}
use data_csi.Base.Results.{Result, ok, err}
use data_csi.Base.Effects.{Exec, continue, mapped, lift, guard as check}

pub data Act (S E A : Type 0) : Type 0 where
  done : Result E A → Act S E A
  -- A step on the state, and the rest of the code, which depends on what the step found.
  step : (S → S) → (S → Act S E A) → Act S E A

module _ {S E A : Type 0} where
  abbrev pub pure : A → Act S E A
  pure a = done (ok a)

  abbrev pub fail : E → Act S E A
  fail e = done (err e)

  -- Code that nothing runs between.
  abbrev pub atomic : Exec S E A → Act S E A
  atomic m = step (λ s. (m s).1) (λ s. done (m s).0)

  -- The same, with an error handed on as a value.
  abbrev pub try : {F : Type 0} → Exec S F A → Act S E (Result F A)
  try m = step (λ s. (m s).1) (λ s. done (ok (m s).0))

  -- What the code does where nothing runs between its steps.
  unfoldable pub run_alone : Act S E A → Exec S E A
  run_alone (done r) s = (r, s)
  run_alone (step f rest) s = run_alone (rest s) (f s)

abbrev pub guard : {S E : Type 0} → Bool → E → Act S E (Unit {0})
guard true e = done (ok tt)
guard false e = done (err e)

module _ {S E A B : Type 0} where
  infixl 5 ◌>>=◌ ◌>>◌
  unfoldable pub ◌>>=◌ : Act S E A → (A → Act S E B) → Act S E B
  done (ok a) >>= k = k a
  done (err e) >>= k = done (err e)
  step f rest >>= k = step f (λ s. rest s >>= k)

  abbrev pub ◌>>◌ : Act S E A → Act S E B → Act S E B
  m >> k = m >>= λ _. k

module _ {S E F A : Type 0} where
  unfoldable pub map_error : (E → F) → Act S E A → Act S F A
  map_error g (done (ok a)) = done (ok a)
  map_error g (done (err e)) = done (err (g e))
  map_error g (step f rest) = step f (λ s. map_error g (rest s))

-- That code does what an uninterrupted piece of code does, where nothing runs between its steps.
pub record Refines {S E A : Type 0} (m : Act S E A) (e : Exec S E A) : Type 0 where
  pub apply : (s : S) → run_alone m s ≡ e s

module _ {S E A : Type 0} where
  pub Refines-done : (r : Result E A) → Refines {S = S} (done r) (lift r)
  unfolding run_alone
  Refines-done r = record { apply = λ s. refl }

  pub Refines-atomic : (e : Exec S E A) → Refines (atomic e) e
  unfolding run_alone
  Refines-atomic e = record { apply = λ s. refl }

module _ {S E : Type 0} where
  pub Refines-guard : (b : Bool) (x : E) → Refines {S = S} (guard b x) (check b x)
  unfolding run_alone
  Refines-guard true x = record { apply = λ s. refl }
  Refines-guard false x = record { apply = λ s. refl }

module _ {S E A B : Type 0} where
  run_alone-bind :
      (m : Act S E A) (k : A → Act S E B) (s : S)
      → run_alone (m >>= k) s ≡ continue (λ a. run_alone (k a)) (run_alone m s)
  unfolding run_alone ◌>>=◌
  run_alone-bind (done (ok a)) k s = refl
  run_alone-bind (done (err e)) k s = refl
  run_alone-bind (step f rest) k s = run_alone-bind (rest s) k (f s)

  continue-Refines :
      {k : A → Act S E B} {l : A → Exec S E B}
      → ((a : A) → Refines (k a) (l a))
      → (r : Result E A × S) → continue (λ a. run_alone (k a)) r ≡ continue l r
  continue-Refines h (ok a, s) = (h a).apply s
  continue-Refines h (err e, s) = refl

  pub Refines-bind :
      {m : Act S E A} {e : Exec S E A} {k : A → Act S E B} {l : A → Exec S E B}
      → Refines m e
      → ((a : A) → Refines (k a) (l a))
      → Refines (m >>= k) (λ s. continue l (e s))
  Refines-bind {m} {k = k} h g = record {
    apply = λ s. run_alone-bind m k s ∙ rw (h.apply s) (continue-Refines g _);
  }

module _ {S E F A : Type 0} (g : E → F) where
  run_alone-map_error :
      (m : Act S E A) (s : S) → run_alone (map_error g m) s ≡ mapped g (run_alone m s)
  unfolding run_alone map_error
  run_alone-map_error (done (ok a)) s = refl
  run_alone-map_error (done (err e)) s = refl
  run_alone-map_error (step f rest) s = run_alone-map_error (rest s) (f s)

  pub Refines-map_error :
      {m : Act S E A} {e : Exec S E A} → Refines m e → Refines (map_error g m) (λ s. mapped g (e s))
  Refines-map_error {m} h = record {
    apply = λ s. run_alone-map_error m s ∙ ap (mapped g) (h.apply s);
  }
