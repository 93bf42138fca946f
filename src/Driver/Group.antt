-- ===== src/Driver/Group.antt =====
-- `golang.org/x/sync/errgroup`, which `Run` starts its goroutines in: a parameter.
use data_csi.Base.{ℕ, ◌+◌, ◌-◌, ◌≡◌, true, Option, none, some, is_some, ◌=ℕ◌, if◌then◌else◌}
use data_csi.Errors.{Error}

pub record Group : Type 1 where
  pub State : Type 0
  -- `errgroup.WithContext(ctx)`, for a context that is not done
  pub with_context : State
  -- `g.Go(f)`
  pub go : State → State
  -- one of the functions returns this error, or nil
  pub returned : Option Error → State → State
  -- the context that the group's is derived from is done
  pub cancelled : Error → State → State
  -- `gctx.Err()`
  pub context_error : State → Option Error
  -- what `g.Wait()` returns, or none while it blocks
  pub wait : State → Option (Option Error)

-- The documentation: "Wait blocks until all function calls from the Go method have returned, then
-- returns the first non-nil error (if any) from them", and "the derived Context is canceled the first
-- time a function passed to Go returns a non-nil error". `running` and `first` are what it speaks of.
pub record GroupLaws (G : Group) : Type 0 where
  pub running : G.State → ℕ
  pub first : G.State → Option Error
  pub wait_lem : (s : G.State) → G.wait s ≡ (if running s =ℕ 0 then some (first s) else none)
  pub running-with_context : running G.with_context ≡ 0
  pub running-go : (s : G.State) → running (G.go s) ≡ running s + 1
  pub running-returned : (r : Option Error) (s : G.State) → running (G.returned r s) ≡ running s - 1
  pub running-cancelled : (e : Error) (s : G.State) → running (G.cancelled e s) ≡ running s
  pub first-with_context : first G.with_context ≡ none
  pub first-go : (s : G.State) → first (G.go s) ≡ first s
  pub first-returned :
      (r : Option Error) (s : G.State)
      → first (G.returned r s) ≡ (if is_some (first s) then first s else r)
  pub first-cancelled : (e : Error) (s : G.State) → first (G.cancelled e s) ≡ first s
  pub error-returned :
      (e : Error) (s : G.State) → is_some (G.context_error (G.returned (some e) s)) ≡ true
  pub error-cancelled :
      (e : Error) (s : G.State) → is_some (G.context_error (G.cancelled e s)) ≡ true
