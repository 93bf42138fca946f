-- ===== src/Driver/Serving/Laws.antt =====
-- When `Run` returns, and what.
use mathlib.Core.List.{append-nil}
use data_csi.Base.{
  ◌<◌, length, ◌⊎◌, inl, inr, Bool-cases, ℕ, ◌+◌, ◌≡◌, refl, Bool, true, false, ◌||◌, Option, none,
  some, is_some, List, [], ◌∷◌, ◌++◌, arith, if◌then◌else◌,
}
use data_csi.Errors.{Error}
use data_csi.Host.{Host}
use data_csi.Driver.{Driver}
use data_csi.Driver.Group.{Group, GroupLaws}
use data_csi.Driver.Serving.{
  Serving, started, run_result, Turn, ticks, pruner_returns, metrics_return, calls_return,
  context_done, Reached, start, later,
}

abbrev one_if : Bool → ℕ
one_if true = 1
one_if false = 0

abbrev pub head? : {A : Type 0} → List A → Option A
head? [] = none
head? (x ∷ xs) = some x

head-of_length : {A : Type 0} (xs : List A) → 0 < length xs → (x : A) × (head? xs ≡ some x)
head-of_length [] h = absurd (omega arith)
head-of_length (x ∷ xs) h = (x, refl)

some-of_is_some : {A : Type 0} (o : Option A) → is_some o ≡ true → (a : A) × (o ≡ some a)
some-of_is_some none h = cc
some-of_is_some (some a) h = (a, refl)

head?-append :
    {A : Type 0} (xs : List A) (x : A)
    → head? (xs ++ (x ∷ [])) ≡ (if is_some (head? xs) then head? xs else some x)
head?-append [] x = refl
head?-append (y ∷ xs) x = refl

length-append : {A : Type 0} (xs : List A) (x : A) → length (xs ++ (x ∷ [])) ≡ length xs + 1
length-append [] x = omega arith
length-append (y ∷ xs) x = omega (arith, length-append xs x)

module _ {H : Host} {G : Group} (L : GroupLaws G) where
  -- The group counts the functions that have not returned, and has the first error of those that
  -- have. Its context is done once one has.
  record Inv (errors : List Error) (s : Serving H G) : Type 0 where
    counted :
        L.running s.group ≡ one_if s.pruning + one_if s.serving_metrics + one_if s.serving_calls
    earliest : L.first s.group ≡ head? errors
    some_left : length errors + L.running s.group ≡ 3
    ended : is_some (head? errors) ≡ true → is_some (G.context_error s.group) ≡ true

  Inv-started : (h : H.State) → Inv [] (started H G h)
  unfolding started
  Inv-started h = record {
    counted = grind (arith, L.running-go, L.running-with_context);
    earliest = grind (arith, L.first-go, L.first-with_context);
    some_left = grind (arith, L.running-go, L.running-with_context);
    ended = λ e. cc;
  }

  -- One of the functions returns an error.
  Inv-returned :
      {errors : List Error} {s t : Serving H G} (e : Error)
      → Inv errors s
      → t.group ≡ G.returned (some e) s.group
      → one_if s.pruning + one_if s.serving_metrics + one_if s.serving_calls
        ≡ one_if t.pruning + one_if t.serving_metrics + one_if t.serving_calls + 1
      → Inv (errors ++ (e ∷ [])) t
  Inv-returned {errors} {s} {t} e inv g n = record {
    counted = ground (arith, inv.counted, L.running-returned (some e) s.group);
    earliest =
        ground (arith, inv.earliest, L.first-returned (some e) s.group, head?-append errors e);
    some_left = ground (
      arith,
      inv.some_left,
      inv.counted,
      L.running-returned (some e) s.group,
      length-append errors e,
    );
    ended = λ h. ground (arith, L.error-returned e s.group);
  }

  Inv-later :
      {d : Driver H} {errors more : List Error} {s t : Serving H G}
      → Inv errors s
      → Turn d s more t
      → Inv (errors ++ more) t
  Inv-later {errors = errors} inv (ticks p) = rw (append-nil errors) (record {
    counted = inv.counted;
    earliest = inv.earliest;
    some_left = inv.some_left;
    ended = inv.ended;
  })
  Inv-later inv (pruner_returns e p c) = Inv-returned e inv refl (ground arith)
  Inv-later inv (metrics_return e p) = Inv-returned e inv refl (ground arith)
  Inv-later inv (calls_return e p) = Inv-returned e inv refl (ground arith)
  Inv-later {errors = errors} {s = s} inv (context_done e p) = rw (append-nil errors) (record {
    counted = ground (arith, inv.counted, L.running-cancelled e s.group);
    earliest = ground (arith, inv.earliest, L.first-cancelled e s.group);
    some_left = ground (arith, inv.some_left, L.running-cancelled e s.group);
    ended = λ h. L.error-cancelled e s.group;
  })

  Inv-reached :
      {d : Driver H} {h : H.State} {errors : List Error} {s : Serving H G}
      → Reached d h errors s
      → Inv errors s
  Inv-reached {h = h} start = Inv-started h
  Inv-reached (later r t) = Inv-later (Inv-reached r) t

  -- `Run` returns exactly once the pruner and both servers have returned, and then it returns the
  -- error of the one that returned first, never nil. While one of them has not, `Run` goes on, also
  -- where its context is done.
  pub run_returns :
      {d : Driver H} {h : H.State} {errors : List Error} {s : Serving H G}
      → Reached d h errors s
      → ((s.pruning || s.serving_metrics || s.serving_calls ≡ true) × (run_result s ≡ none))
        ⊎ ((s.pruning || s.serving_metrics || s.serving_calls ≡ false)
            × ((e : Error) × (head? errors ≡ some e) × (run_result s ≡ some (some e))))
  unfolding run_result
  run_returns {errors = errors} {s = s} r =
      let inv = Inv-reached r in
      elim (Bool-cases (s.pruning || s.serving_metrics || s.serving_calls)) [
        | inl busy ↦ inl (busy, ground (arith, L.wait_lem s.group, inv.counted))
        | inr idle ↦
            let (e, first) = head-of_length errors (ground (arith, inv.some_left, inv.counted)) in
            inr (idle, (e, first, ground (arith, L.wait_lem s.group, inv.counted, inv.earliest)))
      ]

  -- Once both servers have returned, `Run` has returned, or the pruner can return, and then `Run`
  -- returns; in both cases with the error of the function that returned first.
  pub run_ends :
      {d : Driver H} {h : H.State} {errors : List Error} {s : Serving H G}
      → Reached d h errors s
      → s.serving_metrics ≡ false
      → s.serving_calls ≡ false
      → (first : Error) × (head? errors ≡ some first)
        × ((run_result s ≡ some (some first))
            ⊎ ((e : Error) × (t : Serving H G) × Turn d s (e ∷ []) t
                × (run_result t ≡ some (some first))))
  unfolding run_result
  run_ends {errors = errors} {s = s} r m c =
      let inv = Inv-reached r in
      let (first, f) = head-of_length errors (ground (arith, inv.some_left, inv.counted)) in
      let (e, done) = some-of_is_some (G.context_error s.group) (inv.ended (ground arith)) in
      (
        first,
        f,
        elim (Bool-cases s.pruning) [
          | inr idle ↦ inl (ground (arith, L.wait_lem s.group, inv.counted, inv.earliest))
          | inl busy ↦ inr (
            e,
            _,
            pruner_returns e busy done,
            ground (
              arith,
              L.wait_lem (G.returned (some e) s.group),
              L.running-returned (some e) s.group,
              L.first-returned (some e) s.group,
              inv.counted,
              inv.earliest,
            ),
          )
        ],
      )
