-- ===== src/Proposal/Tests.antt =====
-- Runs of the proposal store, and its theorem at a concrete input.
use homelab_registry_mcp.Proposal.{
  Proposal, PrState, auth_mode_conflict, legacy_adoption, open_status, merged, merged_pr, create,
  find_open, find_open_by_path, latest, list_open, save, retire_if_finished, set_status,
  newest_first, insert_newest,
}
use homelab_registry_mcp.Proposal.Retire.{retire_if_finished_lem, Outcome}
use homelab_registry_mcp.Table.{first, select, update}
use homelab_registry_mcp.Prelude.{
  List, Option, String, [], false, none, refl, some, true, ℕ, ◌∷◌, ◌≡◌,
}

abbrev adoption : Proposal
adoption = record {
  id = "p1";
  service_id = some "svc-1";
  finding_type = legacy_adoption;
  pr_url = "https://git/pr/7";
  pr_number = some 7;
  branch = "adopt-jellyfin";
  file_path = "stacks/jellyfin.yml";
  diff = "services: {}";
  status = open_status;
  rejection_reason = none;
  actor = "discovery";
  last_comment_id = none;
  created_at = 1000;
  resolved_at = none;
}

abbrev conflict : Proposal
conflict = record adoption { id = "p2"; finding_type = auth_mode_conflict; created_at = 2000 }

abbrev rows : List Proposal
rows = (create conflict (create adoption []).1).1

abbrev all_merged : String → ℕ → Option PrState
all_merged repo number = some merged_pr

find_open_run : find_open "svc-1" auth_mode_conflict (adoption ∷ conflict ∷ []) ≡ some conflict
unfolding find_open first
find_open_run = refl

find_open_by_path_run :
    find_open_by_path "stacks/jellyfin.yml" legacy_adoption (adoption ∷ conflict ∷ [])
    ≡ some adoption
unfolding find_open_by_path first
find_open_by_path_run = refl

list_open_run : list_open true (adoption ∷ conflict ∷ []) ≡ conflict ∷ adoption ∷ []
unfolding list_open select newest_first insert_newest
list_open_run = refl

latest_run : latest "svc-1" legacy_adoption (adoption ∷ conflict ∷ []) ≡ some adoption
unfolding latest select newest_first insert_newest first
latest_run = refl

save_run :
    (save (record adoption { last_comment_id = some 3 }) (adoption ∷ [])).1
    ≡ record adoption { last_comment_id = some 3 } ∷ []
unfolding save update
save_run = refl

merged_run :
    retire_if_finished 3000 (some all_merged) (some "lab") adoption (adoption ∷ [])
    ≡ (true, record adoption { status = merged; resolved_at = some 3000 } ∷ [])
unfolding retire_if_finished set_status first update
merged_run = refl

conflict_merged_run :
    retire_if_finished 3000 (some all_merged) (some "lab") conflict (conflict ∷ [])
    ≡ (false, conflict ∷ [])
unfolding retire_if_finished
conflict_merged_run = refl

retire_if_finished_lem_example :
    Outcome 3000 adoption "p2"
      (adoption ∷ conflict ∷ [])
      (retire_if_finished 3000 (some all_merged) (some "lab") adoption (adoption ∷ conflict ∷ []))
unfolding first
retire_if_finished_lem_example =
    retire_if_finished_lem 3000 adoption "p2" (adoption ∷ conflict ∷ []) refl (some all_merged)
      (some "lab")
