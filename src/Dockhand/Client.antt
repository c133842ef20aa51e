-- ===== src/Dockhand/Client.antt =====
-- The two writes of src/registry_mcp/integrations/dockhand/client.py. The HTTP call is a parameter:
-- what Dockhand answers to the one request that `_post` sends.
pub mod Safety
use Prim.Native.String.{◌++◌ as join}
use homelab_registry_mcp.Text.{codes, is_digit, is_letter, every}
use homelab_registry_mcp.Prelude.{
  Bool, List, Option, Result, String, [], err, false, if◌then◌else◌, leb, length, none, not, ok,
  some, str_eq, true, ℕ, ◌&&◌, ◌==◌, ◌||◌, ◌∷◌, arith,
}

-- `{"pull": ..., "build": ..., "forceRecreate": ...}`
pub record DeployBody : Type 0 where
  pub pull : Bool
  pub build : Bool
  pub force_recreate : Bool

-- One POST: its path under `/api/`, the environment in its query, and the JSON body of a deploy.
pub record Sent : Type 0 where
  pub path : String
  pub env : String
  pub body : Option DeployBody

-- A parsed answer: its `success` field if it is an object that has one as a boolean, and the text
-- of its `error` or `message`.
pub record Parsed : Type 0 where
  pub success : Option Bool
  pub reason : String

-- What the HTTP library gives: an error status, a failed request, an answer, or an exception that
-- is none of its own.
pub data Reply : Type 0 where
  error_status : ℕ → Reply
  request_failed : Reply
  answered : ℕ → Option Parsed → Reply
  crashed : Reply

pub data ClientError : Type 0 where
  unsupported_action : String → ClientError
  bad_environment : ClientError
  bad_path_id : String → ClientError
  status_error : ℕ → String → ClientError
  no_reply : String → ClientError
  reported_failure : String → String → ClientError
  -- an exception that is not a `DockhandError`
  unexpected : ClientError

-- An action's outcome, and the requests that were sent.
abbrev pub Act : Type 0
Act = Result ClientError ℕ × List Sent

-- `[0-9]{1,9}`, matched in full
pub environment_matches : List ℕ → Bool
unfolding every
environment_matches cs = leb 1 (length cs) && leb (length cs) 9 && every is_digit cs

abbrev pub is_path_code : ℕ → Bool
is_path_code c = is_letter c || is_digit c || c == b'_' || c == b'.' || c == b'-'

-- `[A-Za-z0-9][A-Za-z0-9_.-]{0,127}`, matched in full
pub path_id_matches : List ℕ → Bool
unfolding every
path_id_matches [] = false
path_id_matches (c ∷ cs) =
    (is_letter c || is_digit c) && leb (length cs) 127 && every is_path_code cs

unfoldable pub is_container_action : String → Bool
is_container_action a = str_eq a "start" || str_eq a "stop" || str_eq a "restart"

unfoldable pub is_stack_action : String → Bool
is_stack_action a = str_eq a "start" || str_eq a "stop" || str_eq a "restart" || str_eq a "redeploy"

-- `check_environment`
unfoldable pub check_environment : String → Option ClientError
unfolding environment_matches
check_environment environment_id =
    if environment_matches (codes environment_id) then none else some bad_environment

-- `check_path_id`
unfoldable pub check_path_id : String → String → Option ClientError
unfolding path_id_matches
check_path_id value what = if path_id_matches (codes value) then none else some (bad_path_id what)

abbrev pub is_false : Option Bool → Bool
is_false (some false) = true
is_false _ = false

-- `_post`, once its request has been answered.
pub read_reply : String → Reply → Result ClientError ℕ
read_reply path (error_status n) = err (status_error n path)
read_reply path request_failed = err (no_reply path)
read_reply path crashed = err unexpected
read_reply path (answered n none) = ok n
read_reply path (answered n (some p)) =
    if is_false p.success then err (reported_failure path p.reason) else ok n

module _ (dockhand : Sent → Reply) where
  -- `_post`: one attempt, never retried.
  pub post : String → String → Option DeployBody → Act
  unfolding read_reply
  post path environment_id body =
      let sent : Sent = record { path = path; env = environment_id; body = body } in
      (read_reply path (dockhand sent), sent ∷ [])

  -- `raise` before anything is sent, or go on.
  abbrev pub or_raise : Option ClientError → Act → Act
  or_raise none act = act
  or_raise (some e) act = (err e, [])

  unfoldable pub container_action : String → String → String → Act
  unfolding post
  container_action environment_id container_id action =
      if not (is_container_action action)
      then (err (unsupported_action action), [])
      else or_raise (check_environment environment_id) (
          or_raise (check_path_id container_id "container id")
            (post (join "containers/" (join container_id (join "/" action))) environment_id none))

  unfoldable pub stack_action : String → String → String → Bool → Act
  unfolding post
  stack_action environment_id stack_name action pull =
      if not (is_stack_action action)
      then (err (unsupported_action action), [])
      else or_raise (check_environment environment_id) (
          or_raise (check_path_id stack_name "stack name") (
            if str_eq action "redeploy"
            then post (join "stacks/" (join stack_name "/deploy")) environment_id
                (some (record { pull = pull; build = false; force_recreate = true }))
            else post (join "stacks/" (join stack_name (join "/" action))) environment_id none))
