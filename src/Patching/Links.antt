-- ===== src/Patching/Links.antt =====
-- The Approve and Cancel links of src/registry_mcp/webhooks/approval.py: what a request does to the
-- approvals, the status of the page that answers it, and the patch that it starts. The token is
-- the one that the query string or the form carries; the page's text is not modelled.
pub mod Acting
mod Tests
use homelab_registry_mcp.Patching.Store.{
  PatchApproval, Rows, ApprovalAction, approve, cancel, TokenCheck, TokenState, valid, out_of_time,
  used, invalid, check, consume, record_outcome,
}
use homelab_registry_mcp.Patching.Executor.{PatchExecutor, Command, RunResult, execute}
use homelab_registry_mcp.Prelude.{Bool, List, Option, String, [], if◌then◌else◌, none, some, ℕ}

pub data Method : Type 0 where
  get_or_head post : Method

pub data Page : Type 0 where
  expired_page used_page invalid_page read_only_page confirm_page cancelled_page approved_page :
      Page

abbrev pub status_code : Page → ℕ
status_code expired_page = 410
status_code used_page = 409
status_code invalid_page = 404
status_code read_only_page = 503
status_code _ = 200

-- `_status_page`
pub status_page : TokenState → Option PatchApproval → Page
status_page out_of_time (some a) = expired_page
status_page used (some a) = used_page
status_page _ _ = invalid_page

-- What a request leads to: the page, the patch whose run starts after the page is sent, the rows.
abbrev pub Answered : Type 0
Answered = Page × Option PatchApproval × Rows

-- A GET, on what the check found.
pub confirm_or_status : (read_only : Bool) → TokenState → Option PatchApproval → Page
unfolding status_page
confirm_or_status read_only valid (some a) = if read_only then read_only_page else confirm_page
confirm_or_status read_only s found = status_page s found

-- A POST, on what `consume` returned.
pub act_or_status : ApprovalAction → TokenState → Option PatchApproval → Rows → Answered
unfolding status_page
act_or_status cancel valid (some a) rows = (cancelled_page, none, rows)
act_or_status approve valid (some a) rows = (approved_page, some a, rows)
act_or_status action s found rows = (status_page s found, none, rows)

-- What the routes are given: the mode, and the times at which a POST checks and writes.
pub record Clicked : Type 0 where
  pub read_only : Bool
  pub now : ℕ
  pub now' : ℕ

-- `execute_and_report`: the run of an approved patch, the commands that it takes, and the outcome
-- that it records at the time `ended`.
pub execute_and_report :
    (Command → RunResult)
    → PatchExecutor
    → (ended : ℕ) → Option PatchApproval
    → Rows
    → List Command × Rows
execute_and_report run e ended none rows = ([], rows)
execute_and_report run e ended (some a) rows =
    let (result, commands) = execute run e a in
    (
      commands,
      record_outcome ended a.id result.status result.executed_via (some result.detail) rows,
    )

module _ (sha256 : String → String) where
  -- `handle`, with what other connections do while a POST is under way.
  pub handle :
      Clicked
      → Method
      → ApprovalAction
      → (token : String) → (meanwhile later : Rows → Rows) → Rows
      → Answered
  unfolding confirm_or_status act_or_status
  handle c get_or_head action token meanwhile later rows =
      let found = check sha256 c.now token action rows in
      (confirm_or_status c.read_only found.state found.approval, none, rows)
  handle c post action token meanwhile later rows =
      if c.read_only
      then (read_only_page, none, rows)
      else let (found, rows') = consume sha256 c.now c.now' token action meanwhile later rows in
        act_or_status action found.state found.approval rows'

  -- A request, with the background task that it starts.
  pub click :
      (Command → RunResult)
      → PatchExecutor
      → Clicked
      → (ended : ℕ) → Method
      → ApprovalAction
      → (token : String) → (meanwhile later elsewhere : Rows → Rows) → Rows
      → Page × List Command × Rows
  unfolding handle execute_and_report
  click run e c ended method action token meanwhile later elsewhere rows =
      let (page, started, rows') = handle c method action token meanwhile later rows in
      let (commands, rows'') = execute_and_report run e ended started (elsewhere rows') in
      (page, commands, rows'')
