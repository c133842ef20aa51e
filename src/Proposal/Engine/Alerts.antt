-- ===== src/Proposal/Engine/Alerts.antt =====
-- The proposals that an update or a vulnerability alert opens: `create_for_image_update` and
-- `create_for_vulnerability` of src/registry_mcp/proposal/engine.py.
use homelab_registry_mcp.Registry.{Service}
use homelab_registry_mcp.Registry.Store.{Tables, get_service}
use homelab_registry_mcp.Proposal.{
  Proposal, image_update, vulnerability_scan, rejected, create, find_open, retire_if_finished,
}
use Prim.Native.String.{◌++◌ as join}
use homelab_registry_mcp.Prelude.{
  List, Option, String, [], if◌then◌else◌, none, not, some, str_eq, ◌||◌, ◌∷◌,
}
use homelab_registry_mcp.Proposal.Engine.{
  Draw, Git, ProposalEngine, Ran, draft, no_image, no_service, open_proposal, rejected_patch,
  resolve_target, skipped, when_configured,
}

-- What an alert reports. The tags are empty where they are unknown.
pub record ImageAlert : Type 0 where
  pub image : String
  pub current_tag : String
  pub new_tag : String
  pub severity : String
  pub cve_ids : List String

abbrev or_default : String → String → String
or_default s missing = if str_eq s "" then missing else s

-- `", ".join(cves)`
abbrev comma_list : List String → String
comma_list [] = ""
comma_list (c ∷ []) = c
comma_list (c ∷ d ∷ cs) = join c (join ", " (comma_list (d ∷ cs)))

abbrev pub cve_text : List String → String
cve_text [] = "unspecified CVEs"
cve_text (c ∷ cs) = comma_list (c ∷ cs)

abbrev pub image_context : ImageAlert → String
image_context a =
    join "image: "
      (join a.image (join "\ncurrent_tag: " (join a.current_tag (join "\nnew_tag: " a.new_tag))))

abbrev pub vulnerability_context : ImageAlert → String
vulnerability_context a = join (image_context a) (
    join "\nseverity: "
      (join (or_default a.severity "unknown") (join "\ncves: " (cve_text a.cve_ids))))

-- `path or ""`
abbrev pub or_no_path : Option String → String
or_no_path none = ""
or_no_path (some path) = path

module _ (e : ProposalEngine) where
  -- `create_for_image_update`
  unfoldable pub image_found :
      Git → Draw → (actor : String) → ImageAlert → Option Service → List Proposal → Ran
  unfolding open_proposal
  image_found git d actor a none rows = (no_service, [], rows)
  image_found git d actor a (some s) rows =
      open_proposal e git d image_update s actor (image_context a) rows

  unfoldable pub create_for_image_update :
      Draw → (service_id actor : String) → ImageAlert → Tables → List Proposal → Ran
  unfolding image_found get_service when_configured
  create_for_image_update d service_id actor a t rows =
      when_configured e
        (λ git.
          if str_eq a.image "" || str_eq a.new_tag ""
          then (no_image, [], rows)
          else image_found git d actor a (get_service service_id t) rows)
        rows

  -- The record of a vulnerability that has no fix.
  unfoldable pub record_unfixed :
      Draw → (actor : String) → ImageAlert → Service → List Proposal → Ran
  unfolding create resolve_target
  record_unfixed d actor a s rows =
      let reason = join "no fixed version available upstream (" (join (cve_text a.cve_ids) ")") in
      let path = or_no_path (resolve_target e s) in
      let (proposal, rows') =
        create (draft e d s vulnerability_scan path rejected (some reason) actor) rows in
      (rejected_patch proposal, [], rows')

  -- `create_for_vulnerability` without a fixed tag, on the open proposal that was found.
  unfoldable pub unfixed_on_existing :
      Git → Draw → (actor : String) → ImageAlert → Service → Option Proposal → List Proposal → Ran
  unfolding record_unfixed retire_if_finished
  unfixed_on_existing git d actor a s none rows = record_unfixed d actor a s rows
  unfixed_on_existing git d actor a s (some p) rows =
      let (retired, rows') = retire_if_finished d.now (some git.pr_state) e.repo p rows in
      let on = record_unfixed d actor a s rows' in
      if not retired then (skipped p, [], rows') else on

  -- `create_for_vulnerability` on what the registry has.
  unfoldable pub vulnerability_found :
      Git → Draw → (actor : String) → ImageAlert → Option Service → List Proposal → Ran
  unfolding open_proposal unfixed_on_existing find_open
  vulnerability_found git d actor a none rows = (no_service, [], rows)
  vulnerability_found git d actor a (some s) rows =
      if str_eq a.new_tag ""
      then unfixed_on_existing git d actor a s (find_open s.id vulnerability_scan rows) rows
      else open_proposal e git d vulnerability_scan s actor (vulnerability_context a) rows

  unfoldable pub create_for_vulnerability :
      Draw → (service_id actor : String) → ImageAlert → Tables → List Proposal → Ran
  unfolding vulnerability_found get_service when_configured
  create_for_vulnerability d service_id actor a t rows =
      when_configured e
        (λ git.
          if str_eq a.image ""
          then (no_image, [], rows)
          else vulnerability_found git d actor a (get_service service_id t) rows)
        rows
