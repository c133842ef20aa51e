-- ===== src/Patching/Executor.antt =====
-- src/registry_mcp/patching/executor.py. A command's run is a parameter: the process, its output by
-- lines and its time-out are the operating system's. Texts for people are kept as the values that
-- they are made of.
pub mod Safety
mod Tests
use text.Mathlib.Text.{starts_with}
use homelab_registry_mcp.Patching.Store.{
  PatchApproval, PatchApprovalStatus, Detail, failed, executed, no_playbook, needs_config,
  refused_host, ansible_missing, listing_timed_out, not_one_host, playbook_cli_missing,
  playbook_timed_out, succeeded, crashed, exited,
}
use homelab_registry_mcp.Text.{
  codes, is_blank, is_digit, every, skip_blanks, strip, after_prefix, read_digits, same_codes,
}
use homelab_registry_mcp.Prelude.{
  ℤ, pos, negsuc, Bool, List, Option, String, [], false, if◌then◌else◌, length, none, not, some,
  str_eq, suc, zero, ℕ, ◌&&◌, ◌∷◌,
}

-- A word of a command line: a text, or the JSON object of some variables.
pub data Word : Type 0 where
  word : String → Word
  json : List (String × String) → Word

abbrev pub Command : Type 0
Command = List Word

-- How a command ends: its program is missing, it is stopped after the time-out, it exits (with a
-- negative code where a signal ended it), or the
-- call raises something else.
pub data RunResult : Type 0 where
  not_found timed_out raised : RunResult
  exits : ℤ → (stdout : List (List ℕ)) → RunResult

pub record PatchExecutor : Type 0 where
  pub playbook : Option String
  pub ansible_cfg_path : Option String
  pub ssh_key_path : Option String
  pub ssh_user : String

pub record ExecutionResult : Type 0 where
  pub status : PatchApprovalStatus
  pub executed_via : Option String
  pub detail : Detail

-- Python's truth of a setting: there, and not empty.
abbrev pub is_set : Option String → Bool
is_set none = false
is_set (some s) = not (str_eq s "")

abbrev pub or_empty : Option String → String
or_empty none = ""
or_empty (some s) = s

-- `extra_vars`
pub extra_vars : PatchApproval → List (String × String)
extra_vars a =
    ("patchmon_approval_id", a.id)
    ∷ ("patchmon_event", a.event)
    ∷ ("patchmon_target_host", a.target_host)
    ∷ ("patchmon_host_id", or_empty a.patchmon_host_id)
    ∷ ("patchmon_service", or_empty a.service)
    ∷ ("patchmon_current_version", or_empty a.current_version)
    ∷ ("patchmon_target_version", or_empty a.target_version)
    ∷ []

-- The end of a header line: `\):\s*$`.
pub header_count : ℕ × List ℕ → Option ℕ
header_count (n, cs) = elim (after_prefix (codes "):") cs) [
  | none ↦ none
  | some rest ↦ if every is_blank rest then some n else none
]

-- At least one digit.
pub count_in_header : List ℕ → Option ℕ
unfolding header_count
count_in_header [] = none
count_in_header (c ∷ cs) = if is_digit c then header_count (read_digits 0 (c ∷ cs)) else none

-- `_LIST_HOSTS_RE.match(line)` and its group: `^\s*hosts \((\d+)\):\s*$`, on the digits of ASCII, the
-- only ones that Ansible writes.
pub match_header : List ℕ → Option ℕ
unfolding count_in_header
match_header line = elim (after_prefix (codes "hosts (") (skip_blanks line)) [
  | none ↦ none
  | some rest ↦ count_in_header rest
]

-- `[name.strip() for name in lines[:count] if name.strip()]`
pub names : ℕ → List (List ℕ) → List (List ℕ)
names zero lines = []
names (suc n) [] = []
names (suc n) (line ∷ lines) =
    let rest = names n lines in if every is_blank line then rest else strip line ∷ rest

unfoldable pub parse_list_hosts : List (List ℕ) → List (List ℕ)
unfolding match_header names
parse_list_hosts [] = []
parse_list_hosts (line ∷ lines) =
    let later = parse_list_hosts lines in
    elim (match_header line) [ none ↦ later | some n ↦ names n lines ]

-- `listed == [host]`
pub is_just : List ℕ → List (List ℕ) → Bool
is_just host (name ∷ []) = same_codes name host
is_just host _ = false

abbrev pub list_hosts_command : String → Command
list_hosts_command host = word "ansible" ∷ word "--list-hosts" ∷ word "--" ∷ word host ∷ []

abbrev pub playbook_command : PatchExecutor → PatchApproval → Command
playbook_command e a =
    word "ansible-playbook"
    ∷ word "--private-key"
    ∷ word (or_empty e.ssh_key_path)
    ∷ word "-u"
    ∷ word e.ssh_user
    ∷ word "--limit"
    ∷ word a.target_host
    ∷ word "-e"
    ∷ json (extra_vars a)
    ∷ word "--"
    ∷ word (or_empty e.playbook)
    ∷ []

-- The status and detail of a run, or `none` where it raises; and the commands that were run.
abbrev pub Run : Type 0
Run = Option (PatchApprovalStatus × Detail) × List Command

-- How the playbook's own run is read.
pub read_playbook : RunResult → Option (PatchApprovalStatus × Detail)
read_playbook not_found = some (failed, playbook_cli_missing)
read_playbook timed_out = some (failed, playbook_timed_out)
read_playbook raised = none
read_playbook (exits (pos zero) stdout) = some (executed, succeeded)
read_playbook (exits (pos (suc n)) stdout) = some (failed, exited (pos (suc n)))
read_playbook (exits (negsuc n) stdout) = some (failed, exited (negsuc n))

module _ (run : Command → RunResult) (e : PatchExecutor) where
  -- The playbook, if the name resolves to exactly itself.
  pub run_if_listed : PatchApproval → List (List ℕ) → Run
  unfolding is_just read_playbook
  run_if_listed a listed =
      if not (is_just (codes a.target_host) listed)
      then (some (failed, not_one_host (length listed)), list_hosts_command a.target_host ∷ [])
      else (
        read_playbook (run (playbook_command e a)),
        list_hosts_command a.target_host ∷ playbook_command e a ∷ [],
      )

  -- The first command, and on by how it ends.
  pub after_listing : PatchApproval → RunResult → Run
  unfolding run_if_listed
  after_listing a not_found =
      (some (failed, ansible_missing), list_hosts_command a.target_host ∷ [])
  after_listing a timed_out =
      (some (failed, listing_timed_out), list_hosts_command a.target_host ∷ [])
  after_listing a raised = (none, list_hosts_command a.target_host ∷ [])
  after_listing a (exits rc stdout) = run_if_listed a (parse_list_hosts stdout)

  -- `_run_playbook`
  pub run_playbook : PatchApproval → Run
  unfolding after_listing
  run_playbook a =
      if not (is_set e.ansible_cfg_path && is_set e.ssh_key_path)
      then (some (failed, needs_config), [])
      else if starts_with a.target_host "-"
      then (some (failed, refused_host), [])
      else after_listing a (run (list_hosts_command a.target_host))

  -- `execute`, on what `_execute` returned or raised.
  abbrev pub result_of : Option (PatchApprovalStatus × Detail) → ExecutionResult
  result_of none = record { status = failed; executed_via = none; detail = crashed }
  result_of (some (s, d)) = record { status = s; executed_via = some "ansible"; detail = d }

  -- `execute`, with the commands that were run.
  unfoldable pub execute : PatchApproval → ExecutionResult × List Command
  unfolding run_playbook
  execute a =
      if not (is_set e.playbook)
      then (record { status = failed; executed_via = none; detail = no_playbook }, [])
      else (result_of (run_playbook a).0, (run_playbook a).1)
