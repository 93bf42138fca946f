-- ===== src/Controller/Laws.antt =====
-- What each call of the controller service answers, and what it does to the map of volumes.
use data_csi.Base.Int.{pos}
use data_csi.Base.{
  refl, All, ◌↔◌, [], ◌∷◌, String, ◌≡◌, ◌≢◌, true, false, Bool-cases, Option-cases, Option, none,
  some, List, is_some, is_ok, ok, err, arith, ◌==◌, eq_iff, inl, inr, if◌then◌else◌, ◌⊎◌, not, ◌&&◌,
}
use data_csi.Base.Dict.{lookup, insert, lookup-erase}
use data_csi.Errors.{Status, unimplemented, invalid_argument}
use data_csi.Csi.{
  CreateVolumeRequest, DeleteVolumeRequest, ValidateVolumeCapabilitiesRequest, VolumeCapability,
  AccessType, no_access, block, mount,
}
use data_csi.Node.Server.{invalid}
use data_csi.Controller.{
  ControllerServer, Volumes, has_block, is_block, create_volume, delete_volume,
  validate_volume_capabilities, created,
}

-- That a capability, where one is given, does not ask for block access.
abbrev pub NotBlock : Option VolumeCapability → Type 0
NotBlock none = Unit
NotBlock (some cap) = cap.access_type ≢ block

-- A request to create a volume that is answered with one.
pub record IsAccepted (req : CreateVolumeRequest) : Type 0 where
  pub named : req.name ≢ ""
  pub caps : List (Option VolumeCapability)
  pub given : req.volume_capabilities ≡ some caps
  pub no_block : All NotBlock caps

block-access_type : (a : AccessType) → ((elim a [ block ↦ true | _ ↦ false ]) ≡ false) ↔ (a ≢ block)
block-access_type no_access = (λ e x. cc, λ n. refl)
block-access_type block = (λ e. cc, λ n. absurd (n refl))
block-access_type (mount v) = (λ e x. cc, λ n. refl)

is_block_lem : (cap : Option VolumeCapability) → (is_block cap ≡ false) ↔ NotBlock cap
is_block_lem none = (λ e. tt, λ n. refl)
is_block_lem (some cap) = block-access_type cap.access_type

has_block_lem :
    (caps : List (Option VolumeCapability)) → (has_block caps ≡ false) ↔ All NotBlock caps
has_block_lem [] = (λ e. tt, λ a. refl)
has_block_lem (cap ∷ caps) =
    let (to, of) = has_block_lem caps in
    let (not_block, is_not) = is_block_lem cap in
    elim (Bool-cases (is_block cap)) [
      | inl b ↦ (λ e. cc (rw b at e), λ (n, a). cc (is_not n, b))
      | inr b ↦ (λ e. (not_block b, to (rw b at e)), λ (n, a). rw b (of a))
    ]

-- Creating a volume stores its name under the new id, and answers with that id, the bytes that are
-- required, the parameters and the source of the request, and the topology of this node, if the
-- request is named, and has capabilities of which none asks for block access. Else it stores nothing,
-- and the code is `Unimplemented` for a named request with capabilities and `InvalidArgument` for
-- the others.
pub create_volume_decides :
    (cs : ControllerServer) (uuid : String) (req : CreateVolumeRequest) (volumes : Volumes)
    → (IsAccepted req
        × (create_volume cs uuid req volumes ≡ (
          ok (record {
            volume_id = uuid;
            capacity_bytes = elim req.capacity_range [
              | none ↦ pos 0
              | some range ↦ range.required_bytes
            ];
            volume_context = req.parameters;
            content_source = req.volume_content_source;
            accessible_topology = ((cs.name, cs.node_id) ∷ []) ∷ [];
          }),
          insert uuid req.name volumes,
        )))
      ⊎ ((¬ IsAccepted req)
          × ((st : Status) × (create_volume cs uuid req volumes ≡ (err st, volumes))
              × (st.code ≡ (
                  if not (req.name == "") && is_some req.volume_capabilities
                  then unimplemented
                  else invalid_argument))))
unfolding create_volume created
create_volume_decides cs uuid req volumes = elim (Bool-cases (req.name == "")) [
  | inl n ↦ inr (
    λ a. a.named ((eq_iff req.name "").0 n),
    (invalid "Name missing in request", ground arith, ground arith),
  )
  | inr n ↦ elim (Option-cases req.volume_capabilities) [
    | inr e ↦ inr (
      λ a. cc (a.given, e),
      (invalid "Volume Capabilities missing in request", ground arith, ground arith),
    )
    | inl (caps, e) ↦ elim (Bool-cases (has_block caps)) [
      | inl b ↦ inr (
        λ a.
            let no_block : has_block a.caps ≡ false = (has_block_lem a.caps).1 a.no_block in
            cc (a.given, e, no_block, b),
        (
          record { code = unimplemented; message = "Block Volume not supported" },
          ground arith,
          ground arith,
        ),
      )
      | inr b ↦ inl (
        record {
          named = λ p. ground (arith, eq_iff req.name "");
          caps = caps;
          given = e;
          no_block = (has_block_lem caps).0 b;
        },
        elim (Option-cases req.capacity_range) [
          | inl (range, c) ↦ ground arith
          | inr c ↦ ground arith
        ],
      )
    ]
  ]
]

-- Deleting a volume removes its id and no other; it fails, and changes nothing, only for an empty
-- id. That the id is not there is no failure.
pub delete_volume_lem :
    (req : DeleteVolumeRequest) (volumes : Volumes) (id : String)
    → let (r, left) = delete_volume req volumes in
      (is_ok r ≡ not (req.volume_id == ""))
      × (lookup id left ≡ (if is_ok r && req.volume_id == id then none else lookup id volumes))
unfolding delete_volume
delete_volume_lem req volumes id = ground (arith, lookup-erase req.volume_id id volumes)

-- Validation does not look at the capabilities: it answers alike for any two lists of them.
pub validate_ignores_capabilities :
    (req : ValidateVolumeCapabilitiesRequest) (caps other : List (Option VolumeCapability))
    (volumes : Volumes)
    → validate_volume_capabilities (record req { volume_capabilities = some caps }) volumes
      ≡ validate_volume_capabilities (record req { volume_capabilities = some other }) volumes
unfolding validate_volume_capabilities
validate_ignores_capabilities req caps other volumes = ground arith
