-- ===== src/Patching/Links/Acting.antt =====
-- When a request acts.
use homelab_registry_mcp.Patching.Store.{
  PatchApproval, Rows, ApprovalAction, approve, cancel, TokenState, valid, consume, id_of,
  claim_row,
}
use homelab_registry_mcp.Patching.Store.Consume.{get-record_outcome, Acts, consume-claims}
use homelab_registry_mcp.Patching.Executor.{PatchExecutor, Command, RunResult, execute}
use homelab_registry_mcp.Prelude.{
  List, String, false, some, ℕ, ◌∷◌, ◌≡◌, Bool-cases, Option, inl, inr, refl, ◌∙◌,
}
use homelab_registry_mcp.Patching.Links.{
  Clicked, Method, click, execute_and_report, get_or_head, handle, post, act_or_status,
  approved_page,
}
use homelab_registry_mcp.Table.{Unique, get}

-- What starts a run, of what `consume` returned.
act_or_status-starts :
    (run : Command → RunResult) (e : PatchExecutor) (action : ApprovalAction) (s : TokenState)
    (found : Option PatchApproval) (rows : Rows) (ended : ℕ) (elsewhere : Rows → Rows)
    (command : Command) (more : List Command)
    → (execute_and_report run e ended
        (act_or_status action s found rows).1
        (elsewhere (act_or_status action s found rows).2)).0
      ≡ command ∷ more
    → (action ≡ approve)
      × ((a : PatchApproval) × (s ≡ valid)
          × (found ≡ some a)
          × ((execute run e a).1 ≡ command ∷ more))
unfolding act_or_status execute_and_report
act_or_status-starts run e approve valid (some a) rows ended elsewhere command more h =
    (refl, (a, refl, refl, h))
act_or_status-starts run e cancel valid (some a) rows ended elsewhere command more h = cc
act_or_status-starts run e _ _ _ rows ended elsewhere command more h = cc

module _ (sha256 : String → String) (run : Command → RunResult) (e : PatchExecutor) (c : Clicked)
    (ended : ℕ) (token : String) (meanwhile later elsewhere : Rows → Rows) where
  -- A GET of either link runs no command and writes nothing: the approvals are afterwards what the
  -- others make of them.
  pub click-get :
      (action : ApprovalAction) (rows : Rows)
      → (click sha256 run e c ended get_or_head action token meanwhile later elsewhere rows).2
        ≡ elsewhere rows
  unfolding click handle execute_and_report
  click-get action rows = refl

  -- If a request on a link runs a command at all, it is a POST of the Approve link, outside
  -- read-only mode, whose token `consume` accepts; and the commands that run are those of the
  -- executor for the approval that it accepted.
  pub click-runs :
      (method : Method) (action : ApprovalAction) (rows : Rows) (command : Command)
      (more : List Command)
      → (click sha256 run e c ended method action token meanwhile later elsewhere rows).1
        ≡ command ∷ more
      → (method ≡ post)
        × (action ≡ approve)
        × (c.read_only ≡ false)
        × ((a : PatchApproval) × ((consume sha256 c.now c.now' token action meanwhile later rows).0
              ≡ record { state = valid; approval = some a })
            × ((execute run e a).1 ≡ command ∷ more))
  unfolding click handle execute_and_report
  click-runs get_or_head action rows command more h = cc
  click-runs post action rows command more h = elim (Bool-cases c.read_only) [
    | inl on ↦ absurd (let h' = rw on at h in cc)
    | inr off ↦
        let (is_approve, (a, is_valid_state, is_a, runs)) =
          act_or_status-starts run e action
            (consume sha256 c.now c.now' token action meanwhile later rows).0.state
            (consume sha256 c.now c.now' token action meanwhile later rows).0.approval
            (consume sha256 c.now c.now' token action meanwhile later rows).1 ended elsewhere
            command more (rw off at h) in
        (
          refl,
          is_approve,
          off,
          (a, (λ i. record { state = is_valid_state i; approval = is_a i }), runs),
        )
  ]

-- The approval as its run leaves it: with the run's outcome, and resolved when it was approved.
abbrev pub ended_as : (Command → RunResult) → PatchExecutor → ℕ → PatchApproval → PatchApproval
ended_as run e approved_at a =
    let claimed = claim_row approved_at approve a in
    let result = (execute run e claimed).0 in
    record claimed {
      status = result.status;
      executed_via = result.executed_via;
      detail = some result.detail;
    }

module _ (sha256 : String → String) (run : Command → RunResult) (e : PatchExecutor) (c : Clicked)
    (ended : ℕ) (token : String) (elsewhere : Rows → Rows) where
  -- On a table of approvals with different ids and with no other writer, a POST of an Approve link
  -- that can act, outside read-only mode, runs the approved patch, and its approval ends with the
  -- outcome of that run, provided that what other calls do during the run leaves this approval
  -- alone.
  pub click-approves :
      (rows : Rows) (a : PatchApproval)
      → Unique id_of rows
      → Acts sha256 c.now c.now' token approve rows a
      → c.read_only ≡ false
      → ((t : Rows) → get id_of a.id (elsewhere t) ≡ get id_of a.id t)
      → let (page, commands, rows') =
          click sha256 run e c ended post approve token (λ t. t) (λ t. t) elsewhere rows in
        (page ≡ approved_page)
        × (commands ≡ (execute run e (claim_row c.now' approve a)).1)
        × (get id_of a.id rows' ≡ some (ended_as run e c.now' a))
  unfolding click handle act_or_status execute_and_report
  click-approves rows a u acts off quiet =
      let (seen, stored) = consume-claims sha256 c.now c.now' token approve rows a u acts in
      let rows' = (consume sha256 c.now c.now' token approve (λ t. t) (λ t. t) rows).1 in
      rw (off, seen)
        (
          refl,
          refl,
          get-record_outcome ended a.id (execute run e (claim_row c.now' approve a)).0.status
              (execute run e (claim_row c.now' approve a)).0.executed_via
              (some (execute run e (claim_row c.now' approve a)).0.detail)
              (claim_row c.now' approve a) (elsewhere rows') (quiet rows' ∙ stored),
        )
