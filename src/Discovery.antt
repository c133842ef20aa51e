-- ===== src/Discovery.antt =====
-- Discovery passes: src/registry_mcp/discovery/engine.py.
pub mod Hook
