-- ===== src/Dockhand/Actions/Run.antt =====
-- When an action runs, what it runs, and what is recorded.
use homelab_registry_mcp.Dockhand.Gate.{
  dockhand_failure, no_result, http_status, id_of, executed, executing, failed, resolve_row, Answer,
  Summary, confirm, PendingDockhandAction, finish, confirm, Summary,
}
use homelab_registry_mcp.Dockhand.Gate.Confirm.{Claims, confirm-Claims, confirm-stores, get-finish}
use homelab_registry_mcp.Dockhand.Client.{unexpected, Sent, Reply, ClientError}
use homelab_registry_mcp.Prelude.{
  String, false, if◌then◌else◌, none, refl, some, true, ℕ, ◌≡◌, ok, Result, eq_iff, err, sym, ◌∙◌,
  subst,
}
use homelab_registry_mcp.Dockhand.Actions.{
  Rows, dockhand_action_confirm, run_action, act_on, report,
}
use homelab_registry_mcp.Table.{Unique, get, has_key}
use homelab_registry_mcp.Dockhand.Gate.Race.{is_ok}
use homelab_registry_mcp.Table.Laws.{first-test}

-- What is recorded of an outcome.
abbrev pub summary_of : Result ClientError ℕ → Summary
summary_of (ok status) = http_status status
summary_of (err unexpected) = no_result
summary_of (err e) = dockhand_failure

report-finish :
    (now : ℕ) (row : PendingDockhandAction) (outcome : Result ClientError ℕ) (rows : Rows)
    → (report now row outcome rows).1 ≡ finish now row.id (is_ok outcome) (summary_of outcome) rows
unfolding report
report-finish now row (ok status) rows = refl
report-finish now row (err unexpected) rows = refl
report-finish now row (err e) rows = refl

act_on-ends :
    (dockhand : Sent → Reply) (now : ℕ) (elsewhere : Rows → Rows) (rid : String)
    (row : PendingDockhandAction) (rows : Rows)
    → has_key id_of rid row ≡ true
    → get id_of rid rows ≡ some row
    → row.status ≡ executing
    → ((t : Rows) → get id_of rid (elsewhere t) ≡ get id_of rid t)
    → get id_of rid (act_on dockhand now elsewhere (ok (some row)) rows).1
      ≡ some (
          resolve_row now
            (if is_ok (run_action dockhand row).0 then executed else failed)
            (some (summary_of (run_action dockhand row).0))
            row)
unfolding act_on
act_on-ends dockhand now elsewhere rid row rows same found running quiet =
    rw (report-finish now row (run_action dockhand row).0 (elsewhere rows)) (
      subst
        (λ k.
          get id_of rid (
            finish now k (is_ok (run_action dockhand row).0)
              (summary_of (run_action dockhand row).0) (elsewhere rows))
          ≡ some (
              resolve_row now (if is_ok (run_action dockhand row).0 then executed else failed)
                (some (summary_of (run_action dockhand row).0)) row))
        (sym ((eq_iff row.id rid).0 same))
        (get-finish now rid (is_ok (run_action dockhand row).0)
          (summary_of (run_action dockhand row).0) row (elsewhere rows) (quiet rows ∙ found)
          running))

module _ (dockhand : Sent → Reply) (now now' now'' : ℕ) (elsewhere : Rows → Rows) (rid : String)
    (answer : Answer) (rows : Rows) (u : Unique id_of rows) where
  -- On a table of actions with different ids and with no other writer before the claim, outside
  -- read-only mode, an action that the caller may claim is recorded as ended: its row becomes
  -- `executed` if Dockhand took it and `failed` otherwise, provided that what other calls do while
  -- Dockhand is asked leaves the row alone.
  pub dockhand_action_confirm-ends :
      (row : PendingDockhandAction)
      → get id_of rid rows ≡ some row
      → Claims now now' answer row
      → ((t : Rows) → get id_of rid (elsewhere t) ≡ get id_of rid t)
      → get id_of rid
          (dockhand_action_confirm dockhand false now now' now''
            (λ t. t)
            elsewhere
            rid
            answer
            rows).1
        ≡ some (
            resolve_row now''
              (if is_ok (run_action dockhand row).0 then executed else failed)
              (some (summary_of (run_action dockhand row).0))
              row)
  unfolding dockhand_action_confirm run_action
  dockhand_action_confirm-ends row found may quiet =
      let running : PendingDockhandAction = resolve_row now' executing none row in
      let claimed =
        (confirm-Claims now now' rid answer rows (some running) u).1 (row, found, may, refl) in
      let stored = confirm-stores now now' rid answer (λ t. t) rows claimed in
      rw claimed (
        act_on-ends dockhand now'' elsewhere rid running
          (confirm now now' rid answer (λ t. t) rows).1 (first-test (has_key id_of rid) rows found)
          stored refl quiet)
