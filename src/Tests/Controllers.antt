-- ===== src/Tests/Controllers.antt =====
-- The controller service in the tests.
use mathlib.Core.Bool.{true≢false}
use data_csi.Base.{
  String, ◌≡◌, ◌≢◌, ◌⊎◌, refl, true, false, List, [], ◌∷◌, none, some, is_some, ok, err, is_ok,
  ◌==◌, ap, if◌then◌else◌, not, ◌&&◌,
}
use data_csi.Base.Dict.{insert, erase}
use data_csi.Csi.{
  AccessMode, AccessType, VolumeCapability, CreateVolumeRequest, DeleteVolumeRequest,
  ValidateVolumeCapabilitiesRequest,
}
use data_csi.Base.Int.{pos}
use data_csi.Errors.{FailsOnlyWith, Status, not_found, unimplemented, invalid_argument}
use data_csi.Controller.{
  ControllerServer, create_volume, delete_volume, validate_volume_capabilities,
}
use data_csi.Controller.Laws.{IsAccepted, create_volume_decides}
use data_csi.Controller.History.{
  Call, create, delete, run, after, live, is_valid, validate_after_history,
}

abbrev pub cs : ControllerServer
cs = record { name = "name"; node_id = "node" }

abbrev capability : VolumeCapability
capability = record {
  access_type = AccessType.no_access;
  access_mode = AccessMode.single_node_reader_only;
}

abbrev pub create_request : CreateVolumeRequest
create_request = record {
  name = "data";
  capacity_range = none;
  volume_capabilities = some (some capability ∷ []);
  parameters = [];
  volume_content_source = none;
}

abbrev delete_request : DeleteVolumeRequest
delete_request = record { volume_id = "one" }

abbrev validate_request : ValidateVolumeCapabilitiesRequest
validate_request = record {
  volume_id = "two";
  volume_capabilities = some [];
  volume_context = [];
  parameters = [];
}

-- Two volumes are created and the first is deleted.
abbrev history : List Call
history = create "one" create_request ∷ create "two" create_request ∷ delete delete_request ∷ []

history_left : run cs history [] ≡ ("two", "data") ∷ []
unfolding run after create_volume delete_volume insert erase ◌==◌
history_left = refl

abbrev one : String
one = "one"

abbrev two : String
two = "two"

one-ne-two : one ≢ two
unfolding ◌==◌
one-ne-two e = true≢false (ap (λ t. t == "one") e)

two-ne-empty : two ≢ ""
unfolding ◌==◌
two-ne-empty e = true≢false (ap (λ t. t == "two") e)

validate_after_history_example :
    let (r, left) = validate_volume_capabilities validate_request (run cs history []) in
    (is_ok r ≡ live "two" history false) × FailsOnlyWith not_found r × (left ≡ run cs history [])
validate_after_history_example =
    validate_after_history cs history validate_request two-ne-empty refl

request_is_valid : is_valid create_request ≡ true
unfolding ◌==◌
request_is_valid = refl

create_volume_decides_example :
    (IsAccepted create_request
      × (create_volume cs "one" create_request [] ≡ (
        ok (record {
          volume_id = "one";
          capacity_bytes = elim create_request.capacity_range [
            | none ↦ pos 0
            | some range ↦ range.required_bytes
          ];
          volume_context = create_request.parameters;
          content_source = create_request.volume_content_source;
          accessible_topology = ((cs.name, cs.node_id) ∷ []) ∷ [];
        }),
        insert "one" "data" [],
      )))
    ⊎ ((¬ IsAccepted create_request)
        × ((st : Status) × (create_volume cs "one" create_request [] ≡ (err st, []))
            × (st.code ≡ (
                if not ("data" == "") && is_some create_request.volume_capabilities
                then unimplemented
                else invalid_argument))))
create_volume_decides_example = create_volume_decides cs "one" create_request []
