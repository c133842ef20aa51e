-- ===== src/Patching/Links/Tests.antt =====
-- Runs of the links, and their theorems at concrete inputs.
use homelab_registry_mcp.Patching.Store.{
  PatchApproval, Rows, pending, approve, cancel, valid, id_of, claim_row, consume, TokenCheck, used,
}
use homelab_registry_mcp.Patching.Store
use homelab_registry_mcp.Patching.Store.Consume.{Acts}
use homelab_registry_mcp.Patching.Executor.{
  PatchExecutor, Command, RunResult, exits, not_found, execute, list_hosts_command,
}
use homelab_registry_mcp.Patching.Executor
use homelab_registry_mcp.Prelude.{String, [], arith, false, none, refl, some, ◌∷◌, ◌≡◌}
use homelab_registry_mcp.Patching.Links.{Clicked, approved_page, cancelled_page, click, post}
use homelab_registry_mcp.Table.{rowcount, first, get, Unique, update}
use homelab_registry_mcp.Patching.Links.Acting.{click-runs, ended_as, click-approves}

abbrev plain : String → String
plain s = s

abbrev row : PatchApproval
row = record {
  id = "a1";
  event = "server_update";
  target_host = "nas";
  service = some "openssl";
  current_version = none;
  target_version = some "3.0.14";
  severity = none;
  patchmon_host_id = none;
  summary = none;
  approve_token_hash = "yes-1";
  cancel_token_hash = "no-1";
  status = pending;
  created_at = 5;
  expires_at = 60000005;
  resolved_at = none;
  executed_via = none;
  detail = none;
}

abbrev executor : PatchExecutor
executor = record {
  playbook = some "/playbooks/patch.yml";
  ansible_cfg_path = some "/etc/ansible/ansible.cfg";
  ssh_key_path = some "/run/secrets/key";
  ssh_user = "root";
}

-- A server without Ansible.
abbrev bare : Command → RunResult
bare c = not_found

abbrev clicked : Clicked
clicked = record { read_only = false; now = 10; now' = 11 }

row-Unique : Unique id_of (row ∷ [])
unfolding rowcount
row-Unique = (refl, tt)

acts : Acts plain 10 11 "yes-1" approve (row ∷ []) row
unfolding first
acts = record {
  plausible = refl;
  issued = refl;
  open_still = refl;
  checked_in_time = omega arith;
  written_in_time = omega arith;
}

cancel_run :
    (click plain bare executor clicked 12 post cancel "no-1"
      (λ t. t)
      (λ t. t)
      (λ t. t)
      (row ∷ [])).0
    ≡ cancelled_page
unfolding click Store.consume Store.resolve Store.check Store.classify Store.claim Store.settle
    first rowcount update
cancel_run = refl

approve_run :
    (click plain bare executor clicked 12 post approve "yes-1"
      (λ t. t)
      (λ t. t)
      (λ t. t)
      (row ∷ [])).1
    ≡ list_hosts_command "nas" ∷ []
unfolding click Store.consume Store.resolve Store.check Store.classify Store.claim Store.settle
    Executor.execute first rowcount update
approve_run = refl

click-runs_example :
    (post ≡ post)
    × (approve ≡ approve)
    × (clicked.read_only ≡ false)
    × ((a : PatchApproval) × ((consume plain 10 11 "yes-1" approve (λ t. t) (λ t. t) (row ∷ [])).0
          ≡ record { state = valid; approval = some a })
        × ((execute bare executor a).1 ≡ list_hosts_command "nas" ∷ []))
click-runs_example =
    click-runs plain bare executor clicked 12 "yes-1" (λ t. t) (λ t. t) (λ t. t) post approve
      (row ∷ []) (list_hosts_command "nas") [] approve_run

click-approves_example :
    let (page, commands, rows') =
      click plain bare executor clicked 12 post approve "yes-1"
        (λ t. t)
        (λ t. t)
        (λ t. t)
        (row ∷ []) in
    (page ≡ approved_page)
    × (commands ≡ (execute bare executor (claim_row 11 approve row)).1)
    × (get id_of "a1" rows' ≡ some (ended_as bare executor 11 row))
click-approves_example =
    click-approves plain bare executor clicked 12 "yes-1" (λ t. t) (row ∷ []) row row-Unique acts
      refl (λ t. refl)
