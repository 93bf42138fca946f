-- ===== src/Node/Lifecycle/Ephemeral.antt =====
-- The flow of an ephemeral volume: a publication, which stages the volume too, and an unpublication.
use data_csi.Host.{Host}
