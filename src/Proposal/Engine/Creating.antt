-- ===== src/Proposal/Engine/Creating.antt =====
-- Which branches the engine writes to when it opens proposals.
use homelab_registry_mcp.Registry.{Service}
use homelab_registry_mcp.Registry.Store.{Tables, get_service}
use homelab_registry_mcp.Proposal.Engine.{
  Draw, Git, GitWrite, ProposalEngine, Ran, configured_git, create_for_found, create_for_service,
  finding_type_of, on_finding, when_configured, with_git,
}
use homelab_registry_mcp.Prelude.{
  All, List, Option, String, [], if_lem, none, not, some, ℕ, ◌++◌, ◌∷◌, str_eq, ◌&&◌,
}
use homelab_registry_mcp.Proposal.{
  FindingType, Proposal, find_open, retire_if_finished, image_update, vulnerability_scan,
}
use homelab_registry_mcp.Proposal.Engine.Alerts.{
  ImageAlert, image_found, unfixed_on_existing, vulnerability_found, image_context, record_unfixed,
  vulnerability_context,
}
use homelab_registry_mcp.Proposal.Engine.Pushing.{
  AllOnFeature, open_proposal-AllOnFeature, OnFeature,
}
use homelab_registry_mcp.Proposal.Engine.Sweeps.{auto_create_each, with_hosting, should_create}

module _ (e : ProposalEngine) where
  pub nothing : AllOnFeature e []
  unfolding AllOnFeature
  nothing = tt

  pub AllOnFeature-append :
      (ws vs : List GitWrite) → AllOnFeature e ws → AllOnFeature e vs → AllOnFeature e (ws ++ vs)
  unfolding AllOnFeature
  AllOnFeature-append [] vs all more = more
  AllOnFeature-append (w ∷ ws) vs (h, all) more = (h, AllOnFeature-append ws vs all more)

  with_git-AllOnFeature :
      (run : Git → Ran) (git : Option Git) (rows : List Proposal)
      → ((g : Git) → AllOnFeature e (run g).1)
      → AllOnFeature e (with_git e run git rows).1
  unfolding AllOnFeature
  with_git-AllOnFeature run none rows all = tt
  with_git-AllOnFeature run (some git) rows all = all git

  pub when_configured-AllOnFeature :
      (run : Git → Ran) (rows : List Proposal)
      → ((git : Git) → AllOnFeature e (run git).1)
      → AllOnFeature e (when_configured e run rows).1
  unfolding when_configured AllOnFeature
  when_configured-AllOnFeature run rows all =
      with_git-AllOnFeature run (configured_git e e.git e.repo) rows all

  on_finding-AllOnFeature :
      (git : Git) (d : Draw) (actor : String) (s : Service) (finding : Option FindingType)
      (rows : List Proposal)
      → AllOnFeature e (on_finding e git d actor s finding rows).1
  unfolding on_finding AllOnFeature
  on_finding-AllOnFeature git d actor s none rows = tt
  on_finding-AllOnFeature git d actor s (some finding) rows =
      open_proposal-AllOnFeature e git d finding s actor "" rows

  create_for_found-AllOnFeature :
      (git : Git) (d : Draw) (actor : String) (s : Option Service) (rows : List Proposal)
      → AllOnFeature e (create_for_found e git d actor s rows).1
  unfolding create_for_found AllOnFeature
  create_for_found-AllOnFeature git d actor none rows = tt
  create_for_found-AllOnFeature git d actor (some s) rows =
      on_finding-AllOnFeature git d actor s (finding_type_of s) rows

  pub create_for_service-AllOnFeature :
      (d : Draw) (k actor : String) (t : Tables) (rows : List Proposal)
      → AllOnFeature e (create_for_service e d k actor t rows).1
  unfolding create_for_service
  create_for_service-AllOnFeature d k actor t rows =
      when_configured-AllOnFeature _ rows
        (λ git. create_for_found-AllOnFeature git d actor (get_service k t) rows)

  pub image_found-AllOnFeature :
      (git : Git) (d : Draw) (actor : String) (a : ImageAlert) (s : Option Service)
      (rows : List Proposal)
      → AllOnFeature e (image_found e git d actor a s rows).1
  unfolding image_found AllOnFeature
  image_found-AllOnFeature git d actor a none rows = tt
  image_found-AllOnFeature git d actor a (some s) rows =
      open_proposal-AllOnFeature e git d image_update s actor (image_context a) rows

  unfixed_on_existing-AllOnFeature :
      (git : Git) (d : Draw) (actor : String) (a : ImageAlert) (s : Service) (p : Option Proposal)
      (rows : List Proposal)
      → AllOnFeature e (unfixed_on_existing e git d actor a s p rows).1
  unfolding unfixed_on_existing record_unfixed AllOnFeature
  unfixed_on_existing-AllOnFeature git d actor a s none rows = tt
  unfixed_on_existing-AllOnFeature git d actor a s (some p) rows =
      let after = retire_if_finished d.now (some git.pr_state) e.repo p rows in
      if_lem {A = Ran} (λ r. All (OnFeature e.base_branch) r.1) (not after.0) (λ _. tt) (λ _. tt)

  pub vulnerability_found-AllOnFeature :
      (git : Git) (d : Draw) (actor : String) (a : ImageAlert) (s : Option Service)
      (rows : List Proposal)
      → AllOnFeature e (vulnerability_found e git d actor a s rows).1
  unfolding vulnerability_found AllOnFeature
  vulnerability_found-AllOnFeature git d actor a none rows = tt
  vulnerability_found-AllOnFeature git d actor a (some s) rows =
      if_lem {A = Ran} (λ r. All (OnFeature e.base_branch) r.1) (str_eq a.new_tag "")
        (λ _.
          unfixed_on_existing-AllOnFeature git d actor a s (find_open s.id vulnerability_scan rows)
            rows)
        (λ _.
          open_proposal-AllOnFeature e git d vulnerability_scan s actor (vulnerability_context a)
            rows)

  auto_create_each-AllOnFeature :
      (draws : String → Draw) (t : Tables) (ss : List Service) (rows : List Proposal)
      → AllOnFeature e (auto_create_each e draws t ss rows).0
  unfolding auto_create_each
  auto_create_each-AllOnFeature draws t [] rows = nothing
  auto_create_each-AllOnFeature draws t (s ∷ ss) rows =
      let d = draws s.id in
      let made = create_for_service e d s.id "discovery:auto" t rows in
      if_lem {A = List GitWrite × List Proposal} (λ r. AllOnFeature e r.0)
        (should_create d.now t s rows)
        (λ _.
          AllOnFeature-append made.1 _
            (create_for_service-AllOnFeature d s.id "discovery:auto" t rows)
            (auto_create_each-AllOnFeature draws t ss made.2))
        (λ _. auto_create_each-AllOnFeature draws t ss rows)

  pub with_hosting-AllOnFeature :
      (now : ℕ) (draws : String → Draw) (t : Tables) (git : Option Git) (rows : List Proposal)
      → AllOnFeature e (with_hosting e now draws t git rows).0
  unfolding with_hosting
  with_hosting-AllOnFeature now draws t none rows = nothing
  with_hosting-AllOnFeature now draws t (some git) rows =
      if_lem {A = List GitWrite × List Proposal} (λ r. AllOnFeature e r.0)
        (e.auto_create && not e.read_only) (λ _. auto_create_each-AllOnFeature draws t t.services _)
        (λ _. nothing)
