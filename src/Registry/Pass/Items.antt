-- ===== src/Registry/Pass/Items.antt =====
-- What setting the items of `provenance_updates` one by one makes of a service.
use homelab_registry_mcp.Registry.{
  Service, FieldValue, Category, set_router, set_auth_mode, set_authentik_auth_mode, set_conflict,
  set_host, set_slug, set_traefik_auth_mode, set_urls,
}
use homelab_registry_mcp.Prelude.{
  List, Option, String, refl, ℕ, ◌++◌, ◌≡◌, none, some, ap, or_else, sym, ◌∙◌, [],
}
use homelab_registry_mcp.Registry.Pass.{set_all, values_of, entry}
use homelab_registry_mcp.Registry.Writes.{setattr}
use homelab_registry_mcp.Registry.Reconcile.{Updates, apply_updates, or_mine}

module _ (now : ℕ) (actor : String) where
  -- One item at a time: `field` sets what `put` sets.
  item :
      {A : Type 0} (field : A → FieldValue) (put : Option A → Service → Service) (o : Option A)
      (vs : List FieldValue) (s : Service)
      → ((s : Service) → put none s ≡ s)
      → ((a : A) (s : Service) → setattr (field a) s ≡ put (some a) s)
      → (set_all now actor (entry field o ++ vs) s).0 ≡ (set_all now actor vs (put o s)).0
  unfolding set_all
  item field put none vs s same sets = ap (λ t. (set_all now actor vs t).0) (sym (same s))
  item field put (some a) vs s same sets = ap (λ t. (set_all now actor vs t).0) (sets a s)

  -- Setting the items one by one is setting the updates.
  pub set_all-values_of :
      (u : Updates) (s : Service) → (set_all now actor (values_of u) s).0 ≡ apply_updates u s
  unfolding values_of setattr set_all
  set_all-values_of u s =
      let v8 : List FieldValue = [] in
      let v7 = entry set_conflict u.auth_mode_conflict ++ v8 in
      let v6 = entry set_authentik_auth_mode u.authentik_auth_mode ++ v7 in
      let v5 = entry set_traefik_auth_mode u.traefik_auth_mode ++ v6 in
      let v4 = entry set_urls u.urls ++ v5 in
      let v3 = entry set_host u.host ++ v4 in
      let v2 = entry set_auth_mode u.auth_mode ++ v3 in
      let v1 = entry set_slug u.authentik_app_slug ++ v2 in
      let s1 = record s { traefik_router = or_else u.traefik_router s.traefik_router } in
      let s2 = record s1 {
        authentik_app_slug = or_else u.authentik_app_slug s1.authentik_app_slug;
      } in
      let s3 = record s2 { auth_mode = or_mine u.auth_mode s2.auth_mode } in
      let s4 = record s3 { host = or_else u.host s3.host } in
      let s5 = record s4 { urls = or_mine u.urls s4.urls } in
      let s6 = record s5 { traefik_auth_mode = or_else u.traefik_auth_mode s5.traefik_auth_mode } in
      let s7 = record s6 {
        authentik_auth_mode = or_else u.authentik_auth_mode s6.authentik_auth_mode;
      } in
      item set_router (λ o r. record r { traefik_router = or_else o r.traefik_router })
        u.traefik_router v1 s (λ r. refl) (λ a r. refl)
      ∙ item set_slug (λ o r. record r { authentik_app_slug = or_else o r.authentik_app_slug })
          u.authentik_app_slug v2 s1 (λ r. refl) (λ a r. refl)
      ∙ item set_auth_mode (λ o r. record r { auth_mode = or_mine o r.auth_mode }) u.auth_mode v3 s2
          (λ r. refl) (λ a r. refl)
      ∙ item set_host (λ o r. record r { host = or_else o r.host }) u.host v4 s3 (λ r. refl)
          (λ a r. refl)
      ∙ item set_urls (λ o r. record r { urls = or_mine o r.urls }) u.urls v5 s4 (λ r. refl)
          (λ a r. refl)
      ∙ item set_traefik_auth_mode
          (λ o r. record r { traefik_auth_mode = or_else o r.traefik_auth_mode })
          u.traefik_auth_mode v6 s5 (λ r. refl) (λ a r. refl)
      ∙ item set_authentik_auth_mode
          (λ o r. record r { authentik_auth_mode = or_else o r.authentik_auth_mode })
          u.authentik_auth_mode v7 s6 (λ r. refl) (λ a r. refl)
      ∙ item set_conflict (λ o r. record r { auth_mode_conflict = or_mine o r.auth_mode_conflict })
          u.auth_mode_conflict v8 s7 (λ r. refl) (λ a r. refl)

-- What an operator decides of a service, and discovery only fills in when it creates one.
pub record Curated : Type 0 where
  pub name : String
  pub display_name : String
  pub category : Category
  pub tags : List String
  pub notes : String
  pub hardware_node_id : Option String

abbrev pub curated : Service → Curated
curated s = record {
  name = s.name;
  display_name = s.display_name;
  category = s.category;
  tags = s.tags;
  notes = s.notes;
  hardware_node_id = s.hardware_node_id;
}
