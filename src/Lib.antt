-- ===== src/Lib.antt =====
-- homelab-registry-mcp: the parts of the server that decide whether something irreversible happens
-- (a delete, a container or stack action, a patch run, a write to a repository), who may call it,
-- and the registries that discovery keeps.
--
-- The program is an MCP server over one SQLite file. Destructive tools are gated: a request stores a
-- challenge, and a later call must solve it in time, once. Patches are approved by links in an
-- email, which run an Ansible playbook. Discovery sources report services, which the registry merges
-- with what it has; a hook then looks for findings. The proposal engine opens a pull request for a
-- finding or an alert. PatchMon's alerts arrive at a webhook, which asks for an approval by email.
-- Proposals of pull requests and drafts of adoptions wait in tables of their own.
--
-- Table stands for the SQLModel sessions: a table is the list of its rows, and each statement a
-- function on it. Every store method takes the table and returns its result beside the new table; the
-- clock, random digits, tokens and uuids are arguments. Time is a number of microseconds since the
-- epoch. Where a method reads in one session and writes in another, it takes the function that other
-- connections apply to the table in between. Exceptions are values.
--
--   Text, Json, Table the parts of Python's `str` and `re`, of JSON and of SQL that the models use
--   Deletion         src/registry_mcp/models/deletion.py, deletion/store.py: DeletionGateStore
--   Inventory        src/registry_mcp/models/inventory.py, inventory/store.py: InventoryGateStore
--   Dockhand.Gate    src/registry_mcp/integrations/dockhand/gate.py: DockhandActionGateStore
--   Dockhand.Client  src/registry_mcp/integrations/dockhand/client.py: container_action, stack_action
--   Dockhand.Actions src/registry_mcp/integrations/dockhand/actions.py: the three tools
--   Patching.Store   src/registry_mcp/patching/store.py: PatchApprovalStore
--   Patching.Executor src/registry_mcp/patching/executor.py: PatchExecutor.execute
--   Patching.Links   src/registry_mcp/webhooks/approval.py: the Approve and Cancel routes
--   Adoption         src/registry_mcp/adoption/store.py: AdoptionDraftStore
--   Proposal         src/registry_mcp/proposal/store.py, lifecycle.py: ProposalStore,
--                    retire_if_finished
--   Proposal.Engine  src/registry_mcp/proposal/engine.py: ProposalEngine
--   Registry         src/registry_mcp/models/service.py, event.py: the tables' rows
--   Registry.Reconcile src/registry_mcp/registry/reconcile.py: match_service, provenance_updates
--   Registry.Store, Registry.Writes, Registry.Pass, Registry.Missing
--                    src/registry_mcp/registry/store.py: RegistryStore
--   Discovery.Hook   src/registry_mcp/discovery/engine.py: DiscoveryEngine._pass_complete
--   Auth             src/registry_mcp/auth/verifier.py: AuthentikTokenVerifier, and in Auth.Verify
--                    also src/registry_mcp/auth/middleware.py: RequireGroupMiddleware
--   Webhooks.Common  src/registry_mcp/webhooks/common.py: one_line, read_capped
--   Webhooks.Schemas, Webhooks.Normalize
--                    src/registry_mcp/webhooks/patchmon_schemas.py: both payloads
--   Webhooks.Patchmon src/registry_mcp/webhooks/patchmon.py: patchmon_webhook
--   Hardware         src/registry_mcp/models/hardware.py, hardware/store.py: HardwareStore, and in
--                    Hardware.Calls src/registry_mcp/tools/hardware.py: hardware_add_node
--
-- Dockhand.Actions uses the gate and the client; Patching.Links uses the approvals' store and the
-- executor; Registry.Missing ends the pass that Registry.Pass begins with Registry.Reconcile.
-- Webhooks.Patchmon writes to the approvals' store; Proposal.Engine reads the registry and writes to
-- the proposals' store.
--
-- Every loop is structural recursion on a list, so no fuel is used. Numbers are unbounded, as in
-- Python.
--
-- Parameters: SHA-256 and HMAC, the run of a command, the HTTP answer to a request, PyJWT, pydantic's
-- constrained strings, `json.loads`, `urlparse`, `str.lower`, `str` and `int` of a JSON value, the
-- reasoning layer's resolver and enricher, the patch generator, the Git hosting, the mail server, and
-- what other connections do.
--
-- Not modelled: the texts of messages, pages and emails, of which the values they quote are kept;
-- logging; the migrations of the schema; the discovery sources and the pass around them, the Dockhand
-- webhook, normalization, the generators of proposals, configuration and the
-- server's wiring. The float columns `confidence`, which no modelled operation reads, are left out,
-- and so are the sums of capacities. `urlparse` is taken not to raise, and the database not to fail.
-- What `str` makes of a list, in a change event, is kept as the list, and a count in Ansible's output
-- is read in ASCII digits only.
mod Prelude
pub mod Text
pub mod Json
pub mod Table
pub mod Deletion
pub mod Dockhand
pub mod Patching
pub mod Inventory
pub mod Adoption
pub mod Proposal
pub mod Registry
pub mod Discovery
pub mod Auth
pub mod Hardware
pub mod Webhooks
