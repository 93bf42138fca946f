-- ===== src/Identity.antt =====
-- pkg/data/identity.go: the identity service.
use data_csi.Base.{String, List, [], ◌∷◌, Result, ok, err, ◌==◌, if◌then◌else◌}
use data_csi.Csi.{
  PluginCapability, controller_service, volume_accessibility_constraints, GetPluginInfoResponse,
}

pub record IdentityServer : Type 0 where
  pub name : String
  pub version : String

-- `NewIdentityServer`. An error is the text of a panic.
unfoldable pub new_identity_server : String → String → Result String IdentityServer
new_identity_server name version =
    if name == ""
    then err "Driver name not configured"
    else if version == ""
    then err "Driver is missing version"
    else ok (record { name = name; version = version })

-- `GetPluginInfo`
unfoldable pub get_plugin_info : IdentityServer → GetPluginInfoResponse
get_plugin_info ids = record { name = ids.name; vendor_version = ids.version }

-- `Probe`, whose answer is empty.
unfoldable pub probe : IdentityServer → Unit {0}
probe ids = tt

-- `GetPluginCapabilities`
unfoldable pub get_plugin_capabilities : List PluginCapability
get_plugin_capabilities = controller_service ∷ volume_accessibility_constraints ∷ []
