-- ===== src/Patching/Store/Tests.antt =====
-- Runs of the approval store, and its theorems at concrete inputs.
use homelab_registry_mcp.Prelude.{
  List, String, [], ap, arith, false, none, refl, some, str_eq, sym, true, ◌∙◌, ◌∷◌, ◌≡◌, ◌≤◌, ◌≢◌,
}
use homelab_registry_mcp.Patching.Store.{
  PatchApproval, approve, cancel, check, claim, claim_row, classify, consume, create, expire,
  expired, find_pending, has_token, id_of, invalid, is_valid, lost, out_of_time, pending,
  purge_expired, resolve, settle, valid, approved,
}
use homelab_registry_mcp.Table.{first, rowcount, get, update, Unique, sweep}
use homelab_registry_mcp.Patching.Store.Check.{issued, check-create}
use homelab_registry_mcp.Patching.Store.Consume.{
  Acts, approve_approves, consume_valid, consume_valid_only,
}
use homelab_registry_mcp.Patching.Store.Race.{
  Statement, wins_all, claim_row_for, wins, wins_all-le-one, purge, run_statement,
}

-- Any hash that keeps different tokens apart will do.
abbrev plain : String → String
plain s = s

abbrev draft : PatchApproval
draft = record {
  id = "a1";
  event = "host_security_updates_exceeded";
  target_host = "nas";
  service = none;
  current_version = none;
  target_version = some "1.2";
  severity = some "high";
  patchmon_host_id = none;
  summary = none;
  approve_token_hash = "";
  cancel_token_hash = "";
  status = pending;
  created_at = 5;
  expires_at = 0;
  resolved_at = none;
  executed_via = none;
  detail = none;
}

abbrev row : PatchApproval
row = record draft {
  approve_token_hash = "yes-1";
  cancel_token_hash = "no-1";
  expires_at = 60000005;
}

create_run :
    create plain 5 "yes-1" "no-1" draft 1 []
    ≡ (record { approval = row; approve_token = "yes-1"; cancel_token = "no-1" }, row ∷ [])
unfolding create
create_run = refl

consume_run : consume plain 10 11 "no-1" cancel (λ t. t) (λ t. t) (row ∷ []) ≡ (
  record { state = valid; approval = some (claim_row 11 cancel row) },
  claim_row 11 cancel row ∷ [],
)
unfolding consume resolve check classify claim settle first rowcount update
consume_run = refl

late_run :
    consume plain 60000006 60000007 "no-1" cancel (λ t. t) (λ t. t) (row ∷ [])
    ≡ (record { state = out_of_time; approval = some row }, record row { status = expired } ∷ [])
unfolding consume resolve check classify expire first rowcount update
late_run = refl

-- The TTL runs out between the check and the UPDATE: the row is marked, and nothing acts.
between_run : consume plain 60000005 60000005 "yes-1" approve (λ t. t) (λ t. t) (row ∷ []) ≡ (
  record { state = out_of_time; approval = some (record row { status = expired }) },
  record row { status = expired } ∷ [],
)
unfolding consume resolve check classify claim settle lost expire first rowcount update
between_run = refl

find_pending_run :
    find_pending 10 "host_security_updates_exceeded" "nas" none (some "1.2") (row ∷ []) ≡ some row
unfolding find_pending first
find_pending_run = refl

row-Unique : Unique id_of (row ∷ [])
unfolding rowcount
row-Unique = (refl, tt)

issued_run : first (has_token plain "yes-1" approve) (row ∷ []) ≡ some row
unfolding first
issued_run = refl

no_ne_yes : str_eq "no-1" "yes-1" ≡ false
no_ne_yes = refl

check-create_example :
    (check plain 10 "yes-1" approve (issued plain 5 10 "yes-1" "no-1" draft 1 []).1 ≡ record {
      state = valid;
      approval = some (issued plain 5 10 "yes-1" "no-1" draft 1 []).0.approval;
    })
    × (check plain 10 "yes-1" cancel (issued plain 5 10 "yes-1" "no-1" draft 1 []).1
        ≡ record { state = invalid; approval = none })
    × (check plain 10 "no-1" cancel (issued plain 5 10 "yes-1" "no-1" draft 1 []).1 ≡ record {
      state = valid;
      approval = some (issued plain 5 10 "yes-1" "no-1" draft 1 []).0.approval;
    })
    × (check plain 10 "no-1" approve (issued plain 5 10 "yes-1" "no-1" draft 1 []).1
        ≡ record { state = invalid; approval = none })
unfolding first
check-create_example =
    check-create plain 5 10 "yes-1" "no-1" draft 1 [] refl refl refl refl refl refl
      (λ h. cc (sym no_ne_yes ∙ ap (λ s. str_eq s "yes-1") h)) (omega arith)

acts : Acts plain 10 11 "yes-1" approve (row ∷ []) row
acts = record {
  plausible = refl;
  issued = issued_run;
  open_still = refl;
  checked_in_time = omega arith;
  written_in_time = omega arith;
}

consume_valid_example :
    let out = consume plain 10 11 "yes-1" approve (λ t. t) (λ t. t) (row ∷ []) in
    let moved = record row { status = approved; resolved_at = some 11 } in
    (out.0 ≡ record { state = valid; approval = some moved })
    × (get id_of row.id out.1 ≡ some moved)
    × ((k : String) → k ≢ row.id → get id_of k out.1 ≡ get id_of k (row ∷ []))
consume_valid_example =
    consume_valid plain 10 11 "yes-1" approve approved (row ∷ []) row approve_approves row-Unique
      acts

accepted_run :
    is_valid (consume plain 10 11 "yes-1" approve (λ t. t) (λ t. t) (row ∷ [])).0.state ≡ true
unfolding consume resolve check classify claim settle first rowcount update
accepted_run = refl

consume_valid_only_example : (a : PatchApproval) × Acts plain 10 11 "yes-1" approve (row ∷ []) a
consume_valid_only_example =
    consume_valid_only plain 10 11 "yes-1" approve (row ∷ []) row-Unique accepted_run

abbrev cancelled_first : List Statement
cancelled_first = claim_row_for 10 "a1" cancel ∷ purge 11 ∷ []

cancelled_first_run : wins_all "a1" cancelled_first (row ∷ []) ≡ 1
unfolding wins_all wins run_statement claim purge_expired sweep rowcount update
cancelled_first_run = refl

wins_all-le-one_example : wins_all "a1" cancelled_first (row ∷ []) ≤ 1
wins_all-le-one_example = wins_all-le-one "a1" cancelled_first (row ∷ []) row-Unique
