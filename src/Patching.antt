-- ===== src/Patching.antt =====
-- Patch approvals: src/registry_mcp/models/patch_approval.py, src/registry_mcp/patching/store.py,
-- src/registry_mcp/patching/executor.py, and the links of src/registry_mcp/webhooks/approval.py.
pub mod Store
pub mod Executor
pub mod Links
