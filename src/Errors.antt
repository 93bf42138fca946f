-- ===== src/Errors.antt =====
-- Go's `error` values as the code makes and tests them, and the gRPC status that a handler returns.
-- The codes are those that the handlers use.
use mathlib.Core.Bool.{false≢true}
use data_csi.Base.{String, ◌<>◌, Bool, true, false, ◌≡◌, refl, Result, ok, err}

pub data Code : Type 0 where
  invalid_argument not_found internal unimplemented : Code

pub record Status : Type 0 where
  pub code : Code
  pub message : String

-- If a call fails, its code is this one.
abbrev pub FailsOnlyWith : {A : Type 0} → Code → Result Status A → Type 0
FailsOnlyWith c (ok a) = Unit
FailsOnlyWith c (err st) = st.code ≡ c

pub fails_only :
    {A : Type 0} {c : Code} (r : Result Status A)
    → ((st : Status) → r ≡ err st → st.code ≡ c)
    → FailsOnlyWith c r
fails_only (ok a) f = tt
fails_only (err st) f = f st refl

pub data Error : Type 0 where
  -- `fmt.Errorf` with no `%w`
  text : String → Error
  -- `fmt.Errorf("context: %w", err)`
  wrap : String → Error → Error
  -- an error of the operating system, and whether its cause is that a file is not there
  system : Bool → String → Error
  -- `status.Error(code, message)`
  status : Status → Error
  -- `telem.ErrTelemetrySend`
  telemetry_send : String → Error

-- `err.Error()`. How gRPC writes a status is a parameter.
unfoldable pub message : (Status → String) → Error → String
message render (text s) = s
message render (wrap context e) = context <> (": " <> message render e)
message render (system missing s) = s
message render (status s) = render s
message render (telemetry_send s) = s

-- `os.IsNotExist(err)`, which looks into no wrapped error.
unfoldable pub os_is_not_exist : Error → Bool
os_is_not_exist (system missing s) = missing
os_is_not_exist _ = false

-- `errors.Is(err, fs.ErrNotExist)`, which does.
unfoldable pub is_not_exist : Error → Bool
is_not_exist (text s) = false
is_not_exist (wrap context e) = is_not_exist e
is_not_exist (system missing s) = missing
is_not_exist (status s) = false
is_not_exist (telemetry_send s) = false

-- `errors.Is(err, telem.ErrTelemetrySend)`
unfoldable pub is_telemetry_send : Error → Bool
is_telemetry_send (text s) = false
is_telemetry_send (wrap context e) = is_telemetry_send e
is_telemetry_send (system missing s) = false
is_telemetry_send (status s) = false
is_telemetry_send (telemetry_send s) = true

pub is_not_exist_of_os : (e : Error) → os_is_not_exist e ≡ true → is_not_exist e ≡ true
unfolding os_is_not_exist is_not_exist
is_not_exist_of_os (text s) h = h
is_not_exist_of_os (wrap c e) h = elim (false≢true h) [ ]
is_not_exist_of_os (system m s) h = h
is_not_exist_of_os (status s) h = h
is_not_exist_of_os (telemetry_send s) h = h
