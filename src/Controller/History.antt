-- ===== src/Controller/History.antt =====
-- The calls of the controller service in any order. `sync.Map` makes each of its calls at once, and
-- a handler makes one at most, so concurrent handlers are such a sequence.
use data_csi.Base.{
  String, ◌≡◌, ◌≢◌, refl, true, false, Bool, List, [], ◌∷◌, none, some, is_some, is_ok, arith, ◌==◌,
  eq_iff, eq_refl, if◌then◌else◌, not, ◌&&◌,
}
use data_csi.Base.Dict.{lookup, insert, lookup-insert, lookup-erase}
use data_csi.Errors.{not_found, FailsOnlyWith, fails_only}
use data_csi.Csi.{CreateVolumeRequest, DeleteVolumeRequest, ValidateVolumeCapabilitiesRequest}
use data_csi.Controller.{
  ControllerServer, Volumes, has_block, create_volume, delete_volume, validate_volume_capabilities,
}

-- A call, and for a creation the id that it draws.
pub data Call : Type 0 where
  create : String → CreateVolumeRequest → Call
  delete : DeleteVolumeRequest → Call
  validate : ValidateVolumeCapabilitiesRequest → Call

-- What a call leaves.
unfoldable pub after : ControllerServer → Call → Volumes → Volumes
after cs (create uuid req) volumes = (create_volume cs uuid req volumes).1
after cs (delete req) volumes = (delete_volume req volumes).1
after cs (validate req) volumes = (validate_volume_capabilities req volumes).1

unfoldable pub run : ControllerServer → List Call → Volumes → Volumes
unfolding after
run cs [] volumes = volumes
run cs (c ∷ calls) volumes = run cs calls (after cs c volumes)

-- The specification, which knows no map: whether a creation is one that the service carries out,
-- and whether an id is a volume's after some calls, from whether it is one before.
abbrev pub is_valid : CreateVolumeRequest → Bool
is_valid req =
    not (req.name == "")
    && elim req.volume_capabilities [ none ↦ false | some caps ↦ not (has_block caps) ]

abbrev pub live : String → List Call → Bool → Bool
live id [] before = before
live id (create uuid req ∷ calls) before =
    live id calls (if is_valid req && uuid == id then true else before)
live id (delete req ∷ calls) before = live id calls (if req.volume_id == id then false else before)
live id (validate req ∷ calls) before = live id calls before

after-create_valid :
    (cs : ControllerServer) (uuid : String) (req : CreateVolumeRequest) (volumes : Volumes)
    → is_valid req ≡ true
    → after cs (create uuid req) volumes ≡ insert uuid req.name volumes
unfolding after create_volume
after-create_valid cs uuid req volumes v = ground arith

after-create :
    (cs : ControllerServer) (uuid : String) (req : CreateVolumeRequest) (volumes : Volumes)
    (id : String)
    → is_some (lookup id (after cs (create uuid req) volumes))
      ≡ (if is_valid req && uuid == id then true else is_some (lookup id volumes))
unfolding after create_volume
after-create cs uuid req volumes id = ground (arith, lookup-insert uuid id req.name volumes)

after-delete :
    (cs : ControllerServer) (req : DeleteVolumeRequest) (volumes : Volumes) (id : String)
    → id ≢ ""
    → is_some (lookup id (after cs (delete req) volumes))
      ≡ (if req.volume_id == id then false else is_some (lookup id volumes))
unfolding after delete_volume
after-delete cs req volumes id h =
    ground (
      arith,
      lookup-erase req.volume_id id volumes,
      eq_iff req.volume_id "",
      eq_iff req.volume_id id,
    )

after-validate :
    (cs : ControllerServer) (req : ValidateVolumeCapabilitiesRequest) (volumes : Volumes)
    → after cs (validate req) volumes ≡ volumes
unfolding after validate_volume_capabilities
after-validate cs req volumes = ground arith

lookup-run :
    (cs : ControllerServer) (id : String)
    → id ≢ ""
    → (calls : List Call) (volumes : Volumes)
    → is_some (lookup id (run cs calls volumes)) ≡ live id calls (is_some (lookup id volumes))
unfolding run
lookup-run cs id h [] volumes = refl
lookup-run cs id h (create uuid req ∷ calls) volumes =
    rw (lookup-run cs id h calls (after cs (create uuid req) volumes), after-create)
lookup-run cs id h (delete req ∷ calls) volumes =
    rw (lookup-run cs id h calls (after cs (delete req) volumes), after-delete cs req volumes id h)
lookup-run cs id h (validate req ∷ calls) volumes =
    rw (lookup-run cs id h calls (after cs (validate req) volumes), after-validate)

-- After any calls from an empty map, a complete request to validate an id is confirmed exactly if
-- the id is a volume's by the history of the calls: some valid creation drew it and no deletion of
-- it came later. Else it fails with `NotFound`. It changes nothing.
pub validate_after_history :
    (cs : ControllerServer) (calls : List Call) (req : ValidateVolumeCapabilitiesRequest)
    → req.volume_id ≢ ""
    → is_some req.volume_capabilities ≡ true
    → let (r, left) = validate_volume_capabilities req (run cs calls []) in
      (is_ok r ≡ live req.volume_id calls false)
      × FailsOnlyWith not_found r
      × (left ≡ run cs calls [])
unfolding validate_volume_capabilities
validate_after_history cs calls req h g =
    let known = lookup-run cs req.volume_id h calls [] in
    (
      ground (arith, known, eq_iff req.volume_id ""),
      fails_only _ (λ st e. ground (arith, eq_iff req.volume_id "")),
      ground arith,
    )

-- Two valid creations of one name under two different ids make two volumes of that name: a
-- repeated request is not recognised.
pub create_twice :
    (cs : ControllerServer) (uuid other : String) (req : CreateVolumeRequest) (volumes : Volumes)
    → uuid ≢ other
    → is_valid req ≡ true
    → let left = run cs (create uuid req ∷ create other req ∷ []) volumes in
      (lookup uuid left ≡ some req.name) × (lookup other left ≡ some req.name)
unfolding run
create_twice cs uuid other req volumes n v =
    rw (after-create_valid cs other req _ v, after-create_valid cs uuid req volumes v)
      (
        ground (
          arith,
          lookup-insert other uuid req.name (insert uuid req.name volumes),
          lookup-insert uuid uuid req.name volumes,
          eq_iff other uuid,
          eq_refl uuid,
        ),
        ground (
          arith,
          lookup-insert other other req.name (insert uuid req.name volumes),
          eq_refl other,
        ),
      )
