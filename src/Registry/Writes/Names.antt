-- ===== src/Registry/Writes/Names.antt =====
-- The names of the services under `create_service`, `update_service` and `delete_service`, and
-- what `get_service` makes of a created one.
use homelab_registry_mcp.Registry.{
  Service, FieldValue, id_of, name_of, created_name, deleted_name, set_auth_mode,
  set_authentik_auth_mode, set_category, set_conflict, set_display_name, set_host, set_link_manual,
  set_notes, set_router, set_slug, set_stale, set_tags, set_traefik_auth_mode, set_urls,
}
use homelab_registry_mcp.Registry.Store.{
  Tables, create_service, get_service, created, already_exists,
}
use homelab_registry_mcp.Table.{get, Unique, has_key, delete, rowcount, first}
use homelab_registry_mcp.Table.Unique
use homelab_registry_mcp.Table.Laws.{first-append}
use homelab_registry_mcp.Prelude.{
  Bool, Bool-cases, List, Option, Option-cases, String, [], arith, err, inl, inr, is_some, none, ok,
  refl, some, true, ℕ, ◌∙◌, ◌∷◌, ◌≡◌, ◌⊎◌, eq_refl,
}
use homelab_registry_mcp.Registry.Writes.{
  delete_found, delete_service, edit_all, edit_found, getattr, holds, is_mutable, setattr,
  update_service,
}

found_id :
    (now : ℕ) (s : Service) (actor : String) (t : Tables)
    → get id_of s.id t.services ≡ none
    → get_service s.id (created now s actor t) ≡ some s
unfolding get_service first
found_id now s actor t new =
    rw (first-append (has_key id_of s.id) t.services (s ∷ [])) (rw (new, eq_refl s.id) refl)

found_name :
    (now : ℕ) (s : Service) (actor : String) (t : Tables)
    → get id_of s.name t.services ≡ none
    → get name_of s.name t.services ≡ none
    → get_service s.name (created now s actor t) ≡ some s
unfolding get_service first
found_name now s actor t unnamed free = ground (
  arith,
  unnamed,
  free,
  eq_refl s.name,
  first-append (has_key id_of s.name) t.services (s ∷ []),
  first-append (has_key name_of s.name) t.services (s ∷ []),
)

-- For a service whose id is new and whose name is no service's id: `create_service` accepts it,
-- its name being free, and it is then found by its id and by its name; or its name is taken, and
-- it is refused, the tables staying as they were.
pub create_service-get_service :
    (now : ℕ) (s : Service) (actor : String) (t : Tables)
    → get id_of s.id t.services ≡ none
    → get id_of s.name t.services ≡ none
    → let (result, after) = create_service now s actor t in
      ((result ≡ ok s)
        × (get name_of s.name t.services ≡ none)
        × (get_service s.id after ≡ some s)
        × (get_service s.name after ≡ some s))
      ⊎ ((result ≡ err (already_exists s.name))
          × (is_some (get name_of s.name t.services) ≡ true)
          × (after ≡ t))
unfolding create_service get_service
create_service-get_service now s actor t new unnamed =
    elim (Option-cases (get name_of s.name t.services)) [
      | inr (m, taken) ↦ rw taken (inr (refl, refl, refl))
      | inl free ↦
          rw free
            (inl (refl, refl, found_id now s actor t new, found_name now s actor t unnamed free))
    ]

name-setattr : (v : FieldValue) (s : Service) → (setattr v s).name ≡ s.name
unfolding setattr
name-setattr (set_display_name v) s = refl
name-setattr (set_host v) s = refl
name-setattr (set_router v) s = refl
name-setattr (set_slug v) s = refl
name-setattr (set_notes v) s = refl
name-setattr (set_category v) s = refl
name-setattr (set_urls v) s = refl
name-setattr (set_tags v) s = refl
name-setattr (set_auth_mode v) s = refl
name-setattr (set_traefik_auth_mode v) s = refl
name-setattr (set_authentik_auth_mode v) s = refl
name-setattr (set_link_manual v) s = refl
name-setattr (set_conflict v) s = refl
name-setattr (set_stale v) s = refl
name-setattr (created_name v) s = refl
name-setattr (deleted_name v) s = refl

name-edit_all :
    (now : ℕ) (actor : String) (vs : List (Option FieldValue)) (s : Service)
    → (edit_all now actor vs s).0.name ≡ s.name
unfolding edit_all
name-edit_all now actor [] s = refl
name-edit_all now actor (none ∷ vs) s = name-edit_all now actor vs s
name-edit_all now actor (some v ∷ vs) s = elim (Bool-cases (is_mutable v)) [
  | inr fixed ↦ rw fixed (name-edit_all now actor vs s)
  | inl free ↦ elim (Bool-cases (holds (getattr v s) v)) [
    | inl same ↦ rw (free, same) (name-edit_all now actor vs s)
    | inr differs ↦ rw (free, differs) (name-edit_all now actor vs (setattr v s) ∙ name-setattr v s)
  ]
]

rowcount-delete :
    (q p : Service → Bool) (rows : List Service)
    → rowcount q rows ≡ 0
    → rowcount q (delete p rows) ≡ 0
unfolding rowcount delete
rowcount-delete q p [] h = refl
rowcount-delete q p (r ∷ rows) h = ground (arith, h, rowcount-delete q p rows)

Unique-delete :
    (p : Service → Bool) (rows : List Service)
    → Unique name_of rows
    → Unique name_of (delete p rows)
unfolding delete
Unique-delete p [] u = tt
Unique-delete p (r ∷ rows) u = elim (Bool-cases (p r)) [
  | inl hit ↦ rw hit (Unique-delete p rows u.1)
  | inr miss ↦
      rw miss (rowcount-delete (has_key name_of r.name) p rows u.0, Unique-delete p rows u.1)
]

create_service-Unique :
    (now : ℕ) (s : Service) (actor : String) (t : Tables)
    → Unique name_of t.services
    → Unique name_of (create_service now s actor t).1.services
unfolding create_service
create_service-Unique now s actor t u = elim (Option-cases (get name_of s.name t.services)) [
  | inr (m, taken) ↦ rw taken u
  | inl free ↦ rw free (Unique.Unique-add name_of s t.services free u)
]

update_service-Unique :
    (now : ℕ) (k : String) (vs : List (Option FieldValue)) (actor : String) (t : Tables)
    → Unique name_of t.services
    → Unique name_of (update_service now k vs actor t).1.services
unfolding update_service
update_service-Unique now k vs actor t u = go (get id_of k t.services)
  where
    go : (found : Option Service) → Unique name_of (edit_found now vs actor found t).1.services
    go none = u
    go (some s) =
        Unique.Unique-update name_of (has_key id_of s.id) _ t.services
          (λ r. name-edit_all now actor vs r) u

delete_service-Unique :
    (now : ℕ) (k actor : String) (t : Tables)
    → Unique name_of t.services
    → Unique name_of (delete_service now k actor t).1.services
unfolding delete_service
delete_service-Unique now k actor t u = go (get id_of k t.services)
  where
    go : (found : Option Service) → Unique name_of (delete_found now actor found t).1.services
    go none = u
    go (some s) = Unique-delete (has_key id_of s.id) t.services u

-- A call of the CRUD methods.
pub data Call : Type 0 where
  creates : Service → Call
  updates_of : String → List (Option FieldValue) → Call
  deletes : String → Call

abbrev pub after : (now : ℕ) → String → Call → Tables → Tables
after now actor (creates s) t = (create_service now s actor t).1
after now actor (updates_of k vs) t = (update_service now k vs actor t).1
after now actor (deletes k) t = (delete_service now k actor t).1

unfoldable pub after_all : (now : ℕ) → String → List Call → Tables → Tables
after_all now actor [] t = t
after_all now actor (c ∷ calls) t = after_all now actor calls (after now actor c t)

-- After any sequence of creations, updates and deletions on tables whose services have different
-- names, the services have different names.
pub after_all-Unique :
    (now : ℕ) (actor : String) (calls : List Call) (t : Tables)
    → Unique name_of t.services
    → Unique name_of (after_all now actor calls t).services
unfolding after_all
after_all-Unique now actor [] t u = u
after_all-Unique now actor (creates s ∷ calls) t u =
    after_all-Unique now actor calls _ (create_service-Unique now s actor t u)
after_all-Unique now actor (updates_of k vs ∷ calls) t u =
    after_all-Unique now actor calls _ (update_service-Unique now k vs actor t u)
after_all-Unique now actor (deletes k ∷ calls) t u =
    after_all-Unique now actor calls _ (delete_service-Unique now k actor t u)
