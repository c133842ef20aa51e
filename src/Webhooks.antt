-- ===== src/Webhooks.antt =====
-- The inbound HTTP receivers of src/registry_mcp/webhooks/.
pub mod Common
pub mod Schemas
pub mod Normalize
pub mod Patchmon
