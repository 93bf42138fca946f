-- ===== src/Tests/Servings.antt =====
-- `Run` on the machine of the tests, with a group that counts.
use data_csi.Base.{
  ℕ, ◌+◌, ◌-◌, ◌≡◌, ◌=ℕ◌, ◌||◌, ◌⊎◌, refl, true, false, Option, none, some, is_some, [], ◌∷◌,
  if◌then◌else◌,
}
use data_csi.Errors.{Error, text}
use data_csi.Driver.Group.{Group, GroupLaws}
use data_csi.Driver.Serving.{
  Serving, started, run_result, Turn, metrics_return, calls_return, Reached, start, later,
}
use data_csi.Driver.Serving.Laws.{head?, run_returns, run_ends}
use data_csi.Tests.Drivers.{disk, driver}
use data_csi.Tests.Machine.{machine}

-- The functions that run, the first error of one, and the error of the context.
pub record Counts : Type 0 where
  pub running : ℕ
  pub first : Option Error
  pub context : Option Error

abbrev pub or_else : Option Error → Option Error → Option Error
or_else a b = if is_some a then a else b

abbrev pub counting : Group
counting = record {
  State = Counts;
  with_context = record { running = 0; first = none; context = none };
  go = λ s. record s { running = s.running + 1 };
  returned = λ r s. record {
    running = s.running - 1;
    first = or_else s.first r;
    context = or_else s.context (if is_some r then some (text "context canceled") else none);
  };
  cancelled = λ e s. record s { context = or_else s.context (some e) };
  context_error = λ s. s.context;
  wait = λ s. if s.running =ℕ 0 then some s.first else none;
}

is_some-or_else : (a : Option Error) (e : Error) → is_some (or_else a (some e)) ≡ true
is_some-or_else none e = refl
is_some-or_else (some a) e = refl

pub counting_laws : GroupLaws counting
counting_laws = record {
  running = λ s. s.running;
  first = λ s. s.first;
  wait_lem = λ s. refl;
  running-with_context = refl;
  running-go = λ s. refl;
  running-returned = λ r s. refl;
  running-cancelled = λ e s. refl;
  first-with_context = refl;
  first-go = λ s. refl;
  first-returned = λ r s. refl;
  first-cancelled = λ e s. refl;
  error-returned = λ e s. is_some-or_else s.context (text "context canceled");
  error-cancelled = λ e s. is_some-or_else s.context e;
}

abbrev in_use : Error
in_use = text "address already in use"

abbrev closed : Error
closed = text "use of closed network connection"

abbrev all_serve : Serving machine counting
all_serve = started machine counting disk

-- The port of the metrics is taken, and then the listener is closed.
both_returned : (s : Serving machine counting) × Reached driver disk (in_use ∷ closed ∷ []) s
unfolding started
both_returned = (_, later (later start (metrics_return in_use refl)) (calls_return closed refl))

run_returns_example :
    let s = both_returned.0 in
    ((s.pruning || s.serving_metrics || s.serving_calls ≡ true) × (run_result s ≡ none))
    ⊎ ((s.pruning || s.serving_metrics || s.serving_calls ≡ false)
        × ((e : Error) × (head? (in_use ∷ closed ∷ []) ≡ some e) × (run_result s ≡ some (some e))))
run_returns_example = run_returns counting_laws both_returned.1

run_ends_example :
    let s = both_returned.0 in
    (first : Error) × (head? (in_use ∷ closed ∷ []) ≡ some first)
    × ((run_result s ≡ some (some first))
        ⊎ ((e : Error) × (t : Serving machine counting) × Turn driver s (e ∷ []) t
            × (run_result t ≡ some (some first))))
unfolding both_returned started
run_ends_example = run_ends counting_laws both_returned.1 refl refl
