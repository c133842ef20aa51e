-- ===== src/Proposal/Engine/Tests.antt =====
-- Runs of the engine, and its theorems at concrete inputs.
use homelab_registry_mcp.Registry.{Service, media, forward_auth}
use homelab_registry_mcp.Registry.Store.{Tables}
use homelab_registry_mcp.Proposal.{
  open_status, auth_mode_conflict, other_pr, Proposal, insert_newest, newest_first,
}
use homelab_registry_mcp.Proposal.Engine.{
  create_branch, commit_file, open_pr, Draw, Git, GitWrite, Patch, ProposalEngine, draft,
}
use homelab_registry_mcp.Proposal.Engine.Calls.{
  for_discovery, for_service, EngineCall, run_engine_calls,
}
use homelab_registry_mcp.Prelude.{All, List, [], arith, false, none, ok, refl, some, true, ◌∷◌, ◌≡◌}
use homelab_registry_mcp.Proposal.Engine.Pushing.{OnFeature}
use homelab_registry_mcp.Table.{rowcount, first, select}
use homelab_registry_mcp.Proposal.Engine.Opening.{IsOnce}
use homelab_registry_mcp.Proposal.Engine.Review.{Comment, apply_review_feedback}
use homelab_registry_mcp.Proposal.Engine.Branches.{run_engine_calls-OnFeature}
use homelab_registry_mcp.Proposal.Engine.Once.{run_engine_calls-IsOnce}
use homelab_registry_mcp.Text.{member}
use homelab_registry_mcp.Proposal.Engine.Comments.{IsRevision, apply_review_feedback-IsRevision}
use homelab_registry_mcp.Proposal.Engine.Polls.{new_comments}

abbrev media_service : Service
media_service = record {
  id = "s1";
  name = "jellyfin";
  display_name = "Jellyfin";
  category = media;
  host = some "nas";
  urls = [];
  traefik_router = none;
  authentik_app_slug = none;
  auth_mode = forward_auth;
  traefik_auth_mode = none;
  authentik_auth_mode = none;
  tags = [];
  notes = "";
  auth_mode_conflict = true;
  hardware_node_id = none;
  manual_link = false;
  authentik_link_manual = false;
  is_manual = true;
  stale = false;
  created_at = 10;
  updated_at = 10;
  last_seen_at = none;
}

abbrev registry : Tables
registry = record { services = media_service ∷ []; sources = []; changes = []; discoveries = [] }

abbrev hosting : Git
hosting = record {
  pr_state = λ repo number. some other_pr;
  read_file = λ path ref. some "services: {}";
  accepts = λ write. true;
  opened_pr = λ branch. ("https://git/pr/1", 1);
}

abbrev new_patch : Patch
new_patch = record { content = "services: {a}"; commit_message = "fix" }

abbrev small_engine : ProposalEngine
small_engine = record {
  git = some hosting;
  repo = some "lab/infra";
  base_branch = "main";
  path_of = λ node service. node;
  generator = record {
    generate = λ s finding file path context. ok new_patch;
    revise = λ path file feedback. ok new_patch;
  };
  dry_run = false;
  allowed_users = "ops" ∷ [];
  auto_create = true;
  read_only = false;
}

abbrev first_draw : Draw
first_draw = record { now = 20; id = "p1"; suffix = "2026-01-01-aa" }

abbrev second_draw : Draw
second_draw = record { now = 30; id = "p2"; suffix = "2026-01-01-bb" }

abbrev asked_twice : List (Tables × EngineCall)
asked_twice =
    (registry, for_service first_draw "jellyfin" "manual")
    ∷ (registry, for_service second_draw "jellyfin" "manual")
    ∷ (registry, for_discovery 40 (λ k. second_draw))
    ∷ []

-- Asked for twice, and once more by a discovery pass, the proposal is opened once.
asked_twice_run :
    (run_engine_calls small_engine asked_twice []).0
    ≡ create_branch "patch/auth_mode_conflict-jellyfin-2026-01-01-aa" "main"
      ∷ commit_file "nas" "services: {a}" "patch/auth_mode_conflict-jellyfin-2026-01-01-aa"
      ∷ open_pr "patch/auth_mode_conflict-jellyfin-2026-01-01-aa" "main"
      ∷ []
unfolding run_engine_calls first newest_first select insert_newest
asked_twice_run = refl

run_engine_calls-OnFeature_example :
    All (OnFeature "main") (run_engine_calls small_engine asked_twice []).0
run_engine_calls-OnFeature_example = run_engine_calls-OnFeature small_engine asked_twice []

none_open : IsOnce []
unfolding rowcount
none_open k f = omega arith

run_engine_calls-IsOnce_example : IsOnce (run_engine_calls small_engine asked_twice []).1
run_engine_calls-IsOnce_example =
    run_engine_calls-IsOnce small_engine asked_twice [] (refl, (refl, (refl, tt))) none_open

abbrev feedback : Comment
feedback = record { id = 5; login = "ops"; body = "use a tag" }

abbrev open_row : Proposal
open_row =
    record (draft small_engine first_draw media_service auth_mode_conflict "nas" open_status none
      "manual") { branch = "patch/x"; pr_number = some 1 }

-- The comments that were not seen, the older first.
new_comments_run :
    new_comments (some 5) (record feedback { id = 8 } ∷ feedback ∷ record feedback { id = 6 } ∷ [])
    ≡ record feedback { id = 6 } ∷ record feedback { id = 8 } ∷ []
unfolding new_comments
new_comments_run = refl

apply_review_feedback-IsRevision_example :
    IsRevision small_engine hosting feedback open_row (commit_file "nas" "services: {a}" "patch/x")
    × Path (List GitWrite) [] []
unfolding apply_review_feedback member
apply_review_feedback-IsRevision_example =
    apply_review_feedback-IsRevision small_engine hosting feedback open_row (open_row ∷ [])
      (commit_file "nas" "services: {a}" "patch/x") [] refl
