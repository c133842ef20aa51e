-- ===== src/Dockhand/Client/Safety.antt =====
-- What the client can send.
use Prim.Native.String.{◌++◌ as join}
use homelab_registry_mcp.Text.{every, has_code, has_code-every, codes}
use homelab_registry_mcp.Prelude.{
  Bool, List, String, [], arith, false, none, refl, true, ℕ, ◌∷◌, ◌≡◌, Option-cases, if◌then◌else◌,
  inl, inr, str_eq, ap, sym, ◌∙◌, ◌≢◌,
}
use homelab_registry_mcp.Dockhand.Client.{
  Reply, Sent, check_path_id, is_path_code, is_stack_action, path_id_matches, stack_action,
  check_environment, container_action, is_container_action,
}

-- The id that goes into the path cannot leave its place in it: it is one segment of the path that
-- is not empty and not `.` or `..`, with no `/`, `?`, `#`, `%` or blank.
pub record StaysInPath (id : String) : Type 0 where
  pub no_slash : has_code b'/' (codes id) ≡ false
  pub no_query : has_code b'?' (codes id) ≡ false
  pub no_fragment : has_code b'#' (codes id) ≡ false
  pub no_escape : has_code b'%' (codes id) ≡ false
  pub no_blank : has_code b' ' (codes id) ≡ false
  pub not_empty : id ≢ ""
  pub not_dot : id ≢ "."
  pub not_dots : id ≢ ".."

path_id-every : (cs : List ℕ) → path_id_matches cs ≡ true → every is_path_code cs ≡ true
unfolding path_id_matches every
path_id-every [] h = cc
path_id-every (c ∷ cs) h = ground arith

refused_id :
    (id word : String)
    → path_id_matches (codes word) ≡ false
    → path_id_matches (codes id) ≡ true
    → id ≢ word
refused_id id word refused passed e = cc (sym passed ∙ ap (λ s. path_id_matches (codes s)) e)

check_path_id-StaysInPath : (id what : String) → check_path_id id what ≡ none → StaysInPath id
unfolding check_path_id path_id_matches
check_path_id-StaysInPath id what h =
    let passed : path_id_matches (codes id) ≡ true = ground arith in
    let allowed : every is_path_code (codes id) ≡ true = path_id-every (codes id) passed in
    record {
      no_slash = has_code-every b'/' is_path_code (codes id) refl allowed;
      no_query = has_code-every b'?' is_path_code (codes id) refl allowed;
      no_fragment = has_code-every b'#' is_path_code (codes id) refl allowed;
      no_escape = has_code-every b'%' is_path_code (codes id) refl allowed;
      no_blank = has_code-every b' ' is_path_code (codes id) refl allowed;
      not_empty = refused_id id "" refl passed;
      not_dot = refused_id id "." refl passed;
      not_dots = refused_id id ".." refl passed;
    }

-- A stack action sends nothing, or one request: of a known action, to the environment and the
-- stack that it was given, by a name that stays in its place in the path: it is not empty, `.` or
-- `..`, and has no `/`, `?`, `#`, `%` or blank.
pub stack_action-sends :
    (dockhand : Sent → Reply) (env name action : String) (pull : Bool) (s : Sent) (more : List Sent)
    → (stack_action dockhand env name action pull).1 ≡ s ∷ more
    → (more ≡ [])
      × (is_stack_action action ≡ true)
      × (check_environment env ≡ none)
      × (s.env ≡ env)
      × (s.path
          ≡ join "stacks/"
              (join name (if str_eq action "redeploy" then "/deploy" else join "/" action)))
      × StaysInPath name
unfolding stack_action
stack_action-sends dockhand env name action pull s more h =
    elim (Option-cases (check_environment env)) [
      | inr (e, bad) ↦ absurd (ground arith)
      | inl env_ok ↦ elim (Option-cases (check_path_id name "stack name")) [
        | inr (e, bad) ↦ absurd (ground arith)
        | inl id_ok ↦
            let t = check_path_id-StaysInPath name "stack name" id_ok in
            (ground arith, ground arith, env_ok, ground arith, ground arith, t)
      ]
    ]

-- A container action sends nothing, or one request: of a known action, to the environment and the
-- container that it was given, by a name that stays in its place in the path.
pub container_action-sends :
    (dockhand : Sent → Reply) (env id action : String) (s : Sent) (more : List Sent)
    → (container_action dockhand env id action).1 ≡ s ∷ more
    → (more ≡ [])
      × (is_container_action action ≡ true)
      × (check_environment env ≡ none)
      × (s.env ≡ env)
      × (s.path ≡ join "containers/" (join id (join "/" action)))
      × StaysInPath id
unfolding container_action
container_action-sends dockhand env id action s more h =
    elim (Option-cases (check_environment env)) [
      | inr (e, bad) ↦ absurd (ground arith)
      | inl env_ok ↦ elim (Option-cases (check_path_id id "container id")) [
        | inr (e, bad) ↦ absurd (ground arith)
        | inl id_ok ↦
            let t = check_path_id-StaysInPath id "container id" id_ok in
            (ground arith, ground arith, env_ok, ground arith, ground arith, t)
      ]
    ]
