-- ===== src/Auth.antt =====
-- The gate before the operator's endpoints: `requireAdminViaDock` and `extractAccessToken` of
-- internal/wg/auth.go. The two questions to the dock service are arguments.
pub mod Gate
use polar_wg.Api.{equal_fold}
use polar_wg.Errors.{
  ok, not_granted, access_check_failed, admin_role_required, invalid_session, or_fail,
  missing_bearer, require, Result, ◌>>=◌, ◌>>◌,
}
use polar_wg.Base.{
  to_lower, prefix, none, zero, not, str_eq, is_empty, suc, some, Bool, trim_space, String, ℕ,
  Option, if◌then◌else◌,
}

pub record Identity : Type 0 where
  pub user_id : String
  pub role : String
  pub workspace_id : String

-- AuthVerifyWS of a token and a workspace, and WorkspacePluginAccess of a workspace: whether the
-- access is enabled, or nothing where the question fails.
pub record Dock : Type 0 where
  pub verify : String → String → Option Identity
  pub access : String → Option Bool

-- What a request carries: its Authorization header, the query access_token, the cookie and the
-- workspace header.
pub record Credentials : Type 0 where
  pub authorization : String
  pub query : String
  pub cookie : Option String
  pub workspace : String

unfoldable pub drop_chars : ℕ → String → String
drop_chars zero s = s
drop_chars (suc n) String.[] = String.[]
drop_chars (suc n) (String.◌∷◌ c s) = drop_chars n s

-- strings.HasPrefix(strings.ToLower(v), "bearer ")
abbrev has_bearer : String → Bool
has_bearer v = str_eq (prefix 7 (to_lower v)) "bearer "

abbrev cookie_or_empty : Option String → String
cookie_or_empty none = ""
cookie_or_empty (some c) = trim_space c

unfoldable pub access_token : Credentials → String
access_token c =
    let v = trim_space c.authorization in
    let q = trim_space c.query in
    if has_bearer v
    then trim_space (drop_chars 7 v)
    else if is_empty q
    then cookie_or_empty c.cookie
    else q

-- requireAdminViaDock
unfoldable pub require_admin : Dock → Credentials → Result Identity
require_admin dock c = do
  let token = access_token c
  require (not (is_empty token)) missing_bearer
  who ← or_fail (dock.verify token (trim_space c.workspace)) invalid_session
  require (equal_fold who.role "admin") admin_role_required
  enabled ← or_fail (dock.access who.workspace_id) access_check_failed
  require enabled not_granted
  ok who
