-- ===== src/Patching/Store.antt =====
-- src/registry_mcp/models/patch_approval.py and src/registry_mcp/patching/store.py. SHA-256 is a
-- parameter, and so are the random tokens, the ids and the clock, in microseconds. `consume` runs
-- in several sessions: it takes what other connections do to the table between them.
pub mod Check
pub mod Claiming
pub mod Consume
pub mod Race
mod Tests
use Prim.Native.String.{count}
use homelab_registry_mcp.Prelude.{
  ℤ, pos, negsuc, Bool, List, Option, String, false, if◌then◌else◌, ltb, none, not, or_else, some,
  str_eq, true, ℕ, ◌&&◌, ◌*◌, ◌+◌, ◌==◌, ◌||◌,
}
use homelab_registry_mcp.Table.{first, update, sweep, has_key, rowcount, get, add}

pub data PatchApprovalStatus : Type 0 where
  pending approved cancelled expired executed failed undelivered : PatchApprovalStatus

-- What the `detail` column is printed from: how a run ended, or why the email was not sent.
pub data Detail : Type 0 where
  no_playbook needs_config refused_host ansible_missing listing_timed_out : Detail
  -- how many hosts the name matched
  not_one_host : ℕ → Detail
  playbook_cli_missing playbook_timed_out succeeded crashed undelivered_email : Detail
  exited : ℤ → Detail

pub record PatchApproval : Type 0 where
  pub id : String
  pub event : String
  pub target_host : String
  pub service : Option String
  pub current_version : Option String
  pub target_version : Option String
  pub severity : Option String
  pub patchmon_host_id : Option String
  pub summary : Option String
  pub approve_token_hash : String
  pub cancel_token_hash : String
  pub status : PatchApprovalStatus
  pub created_at : ℕ
  pub expires_at : ℕ
  pub resolved_at : Option ℕ
  pub executed_via : Option String
  pub detail : Option Detail

abbrev pub Rows : Type 0
Rows = List PatchApproval

pub data ApprovalAction : Type 0 where
  approve cancel : ApprovalAction

-- `TokenState`, together with the approval that a `TokenCheck` carries.
pub data TokenState : Type 0 where
  valid invalid out_of_time used : TokenState

pub record TokenCheck : Type 0 where
  pub state : TokenState
  pub approval : Option PatchApproval

pub record IssuedApproval : Type 0 where
  pub approval : PatchApproval
  pub approve_token : String
  pub cancel_token : String

abbrev pub minute : ℕ
minute = 60000000

abbrev pub max_token_chars : ℕ
max_token_chars = 128

abbrev pub is_pending : PatchApprovalStatus → Bool
is_pending pending = true
is_pending _ = false

abbrev pub is_expired : PatchApprovalStatus → Bool
is_expired expired = true
is_expired _ = false

abbrev pub is_past : ℕ → ℕ → Bool
is_past now expires_at = ltb expires_at now

abbrev pub id_of : PatchApproval → String
id_of r = r.id

abbrev pub token_hash : ApprovalAction → PatchApproval → String
token_hash approve r = r.approve_token_hash
token_hash cancel r = r.cancel_token_hash

abbrev pub is_valid : TokenState → Bool
is_valid valid = true
is_valid _ = false

-- `same`: a missing value matches a missing value, and `column = NULL` is never true.
abbrev pub same : Option String → Option String → Bool
same none none = true
same (some a) (some b) = str_eq a b
same _ _ = false

-- The status to which a click moves an approval.
abbrev pub target_of : ApprovalAction → PatchApprovalStatus
target_of approve = approved
target_of cancel = cancelled

-- `find_pending`: the first row that the query selects and that is not past its time.
unfoldable pub find_pending :
    (now : ℕ)
    → (event target_host : String) → (service target_version : Option String) → Rows
    → Option PatchApproval
find_pending now event target_host service target_version = first (λ r.
    (is_pending r.status
      && (str_eq r.event event
          && (str_eq r.target_host target_host
              && (same r.service service && same r.target_version target_version))))
    && not (is_past now r.expires_at))

-- `_expire`
unfoldable pub expire : String → Rows → Rows
expire approval_id =
    update (λ r. has_key id_of approval_id r && is_pending r.status)
      (λ r. record r { status = expired })

-- `record_outcome`
unfoldable pub record_outcome :
    (now : ℕ)
    → String
    → PatchApprovalStatus
    → (executed_via : Option String) → (detail : Option Detail) → Rows
    → Rows
record_outcome now approval_id status executed_via detail = update (has_key id_of approval_id) (λ r.
    record r {
      status = status;
      executed_via = executed_via;
      detail = detail;
      resolved_at = or_else r.resolved_at (some now);
    })

-- `purge_expired`, with the count that it returns.
unfoldable pub purge_expired : (now : ℕ) → Rows → Rows × ℕ
purge_expired now =
    sweep (λ r. is_pending r.status) (λ r. is_past now r.expires_at)
      (λ r. record r { status = expired })

-- The end of `check`, on the row that has the token's hash.
unfoldable pub classify : (now : ℕ) → Option PatchApproval → TokenCheck
classify now none = record { state = invalid; approval = none }
classify now (some a) =
    if is_expired a.status
    then record { state = out_of_time; approval = some a }
    else if not (is_pending a.status)
    then record { state = used; approval = some a }
    else if is_past now a.expires_at
    then record { state = out_of_time; approval = some a }
    else record { state = valid; approval = some a }

-- The UPDATE of `consume`: its condition, its row count and what it writes.
abbrev pub claimable : ℕ → String → PatchApproval → Bool
claimable now approval_id r =
    has_key id_of approval_id r && (is_pending r.status && ltb now r.expires_at)

abbrev pub claim_row : ℕ → ApprovalAction → PatchApproval → PatchApproval
claim_row now action r = record r { status = target_of action; resolved_at = some now }

unfoldable pub claim : (now : ℕ) → String → ApprovalAction → Rows → ℕ × Rows
claim now approval_id action rows = (
  rowcount (claimable now approval_id) rows,
  update (claimable now approval_id) (claim_row now action) rows,
)

-- `consume` behind an UPDATE that moved no row, on the row as it is then.
unfoldable pub lost : String → Option PatchApproval → Rows → TokenCheck × Rows
unfolding expire
lost approval_id none rows = (record { state = used; approval = none }, rows)
lost approval_id (some current) rows =
    if is_pending current.status
    then (
      record { state = out_of_time; approval = get id_of approval_id (expire approval_id rows) },
      expire approval_id rows,
    )
    else (record { state = used; approval = some current }, rows)

-- `consume` behind its UPDATE, on the row count.
unfoldable pub settle : String → ℕ → Rows → TokenCheck × Rows
unfolding lost
settle approval_id moved rows =
    if not (moved == 1)
    then lost approval_id (get id_of approval_id rows) rows
    else (record { state = valid; approval = get id_of approval_id rows }, rows)

-- `consume` behind its check, by the state and the approval that the check found.
unfoldable pub resolve :
    (now : ℕ)
    → ApprovalAction
    → (later : Rows → Rows) → TokenState
    → Option PatchApproval
    → Rows
    → TokenCheck × Rows
resolve now action later out_of_time (some a) rows =
    (record { state = out_of_time; approval = some a }, expire a.id rows)
resolve now action later valid (some a) rows =
    let (moved, rows') = claim now a.id action rows in settle a.id moved (later rows')
resolve now action later state found rows = (record { state = state; approval = found }, rows)

module _ (sha256 : String → String) where
  -- `hash_token`
  abbrev pub hash_token : String → String
  hash_token token = sha256 token

  -- `create`
  unfoldable pub create :
      (now : ℕ) (approve_token cancel_token : String)
      → PatchApproval
      → (ttl_minutes : ℕ) → Rows
      → IssuedApproval × Rows
  create now approve_token cancel_token approval ttl_minutes rows =
      let row : PatchApproval = record approval {
        approve_token_hash = hash_token approve_token;
        cancel_token_hash = hash_token cancel_token;
        status = pending;
        expires_at = now + ttl_minutes * minute;
      } in
      (
        record { approval = row; approve_token = approve_token; cancel_token = cancel_token },
        add row rows,
      )

  -- The row that a token names for an action.
  abbrev pub has_token : String → ApprovalAction → PatchApproval → Bool
  has_token token action r = str_eq (token_hash action r) (hash_token token)

  unfoldable pub check : (now : ℕ) → String → ApprovalAction → Rows → TokenCheck
  unfolding classify
  check now token action rows =
      if str_eq token "" || ltb max_token_chars (count token)
      then record { state = invalid; approval = none }
      else classify now (first (has_token token action) rows)

  -- `consume`: it checks at `now`, others do `meanwhile`, it writes at `now'`, and others do
  -- `later` before it reads the row back.
  unfoldable pub consume :
      (now now' : ℕ)
      → String
      → ApprovalAction
      → (meanwhile later : Rows → Rows) → Rows
      → TokenCheck × Rows
  unfolding check resolve
  consume now now' token action meanwhile later rows =
      let found = check now token action rows in
      resolve now' action later found.state found.approval (meanwhile rows)
