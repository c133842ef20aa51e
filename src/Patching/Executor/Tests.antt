-- ===== src/Patching/Executor/Tests.antt =====
-- Runs of the executor, and its theorems at concrete inputs.
use homelab_registry_mcp.Text
use homelab_registry_mcp.Text.{codes}
use homelab_registry_mcp.Patching.Executor.Safety
use homelab_registry_mcp.Patching.Store.{PatchApproval, approved, failed, not_one_host}
use homelab_registry_mcp.Prelude.{pos, List, [], none, refl, some, ℕ, ◌∷◌, ◌≡◌}
use homelab_registry_mcp.Patching.Executor.{
  Command, PatchExecutor, RunResult, execute, exits, list_hosts_command, parse_list_hosts,
}

abbrev approval : PatchApproval
approval = record {
  id = "a1";
  event = "server_update";
  target_host = "nas";
  service = some "openssl";
  current_version = none;
  target_version = some "3.0.14";
  severity = none;
  patchmon_host_id = none;
  summary = none;
  approve_token_hash = "yes-1";
  cancel_token_hash = "no-1";
  status = approved;
  created_at = 5;
  expires_at = 60000005;
  resolved_at = some 11;
  executed_via = none;
  detail = none;
}

abbrev executor : PatchExecutor
executor = record {
  playbook = some "/playbooks/patch.yml";
  ansible_cfg_path = some "/etc/ansible/ansible.cfg";
  ssh_key_path = some "/run/secrets/key";
  ssh_user = "root";
}

abbrev listing : List (List ℕ)
listing = codes "  hosts (1):" ∷ codes "    nas" ∷ []

-- Every command exits with 0, and prints the listing of one host.
abbrev one_host : Command → RunResult
one_host c = exits (pos 0) listing

listing_run : parse_list_hosts listing ≡ codes "nas" ∷ []
unfolding parse_list_hosts Text.skip_blanks Text.strip Text.after_prefix Text.read_digits Text.every
listing_run = refl

two_hosts_run :
    parse_list_hosts (codes "hosts (2):" ∷ codes "  a" ∷ codes "  b" ∷ codes "  c" ∷ [])
    ≡ codes "a" ∷ codes "b" ∷ []
unfolding parse_list_hosts Text.skip_blanks Text.strip Text.after_prefix Text.read_digits Text.every
two_hosts_run = refl

-- A group's name lists other hosts than itself.
group_run : execute one_host executor (record approval { target_host = "all" }) ≡ (
  record { status = failed; executed_via = some "ansible"; detail = not_one_host 1 },
  list_hosts_command "all" ∷ [],
)
unfolding execute parse_list_hosts Text.skip_blanks Text.strip Text.after_prefix Text.read_digits
    Text.every Text.same_codes
group_run = refl
