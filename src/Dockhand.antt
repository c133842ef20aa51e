-- ===== src/Dockhand.antt =====
-- Gated Dockhand actions: src/registry_mcp/models/dockhand_action.py and
-- src/registry_mcp/integrations/dockhand. The gate is the store behind the tools, and the actions
-- are the tools.
pub mod Gate
pub mod Client
pub mod Actions
