-- ===== src/Auth/Gate.antt =====
-- Who is let through to the operator's endpoints.
use polar_wg.Auth.{
  not_granted, access_check_failed, admin_role_required, invalid_session, missing_bearer, not,
  equal_fold, some, trim_space, access_token, ok, is_empty, Identity, Credentials, Dock,
  require_admin,
}
use polar_wg.Base.{◌∙◌, arith, true, false, ◌≡◌, refl}
use polar_wg.Errors.Ends.{Ends-or_fail, Ends-guard, Ends-bind, Ends-ok, returns}
use mathlib.Core.Path.{ap}

-- What a caller needs: a token, an identity for it, the role of an administrator, and a workspace for
-- which the access is enabled.
abbrev pub IsGranted : Dock → Credentials → Identity → Type 0
IsGranted dock c who =
    (is_empty (access_token c) ≡ false)
    × (dock.verify (access_token c) (trim_space c.workspace) ≡ some who)
    × (equal_fold who.role "admin" ≡ true)
    × (dock.access who.workspace_id ≡ some true)

let_through :
    (dock : Dock) (c : Credentials) (who : Identity)
    → IsGranted dock c who
    → require_admin dock c ≡ ok who
unfolding require_admin
let_through dock c who g = rw (g.0, g.1, g.2, g.3) refl

granted :
    (dock : Dock) (c : Credentials) (who : Identity)
    → require_admin dock c ≡ ok who
    → IsGranted dock c who
unfolding require_admin
granted dock c who done =
    Ends-ok (IsGranted dock c) (λ _. Unit) (require_admin dock c) who done
      (Ends-bind _
        (Ends-guard (λ _. Unit) (not (is_empty (access_token c))) missing_bearer (λ _. tt))
        λ _ some_token.
          Ends-bind _
            (Ends-or_fail (λ who. dock.verify (access_token c) (trim_space c.workspace) ≡ some who)
              (λ _. Unit) (dock.verify (access_token c) (trim_space c.workspace)) invalid_session
              (λ _. tt) (λ who e. e))
            λ who known.
              Ends-bind _
                (Ends-guard (λ _. Unit) (equal_fold who.role "admin") admin_role_required (λ _. tt))
                λ _ admin.
                  Ends-bind _
                    (Ends-or_fail (λ b. dock.access who.workspace_id ≡ some b) (λ _. Unit)
                      (dock.access who.workspace_id) access_check_failed (λ _. tt) (λ b e. e))
                    λ enabled asked.
                      Ends-bind _ (Ends-guard (λ _. Unit) enabled not_granted (λ _. tt)) λ _ on.
                        returns who (ground arith, known, admin, asked ∙ ap (λ b. some b) on))

-- A request is let through as an identity exactly when it has a token, the dock service verifies
-- the token as this identity, its role is admin in whatever case, and the access of its
-- workspace is enabled.
pub require_admin_iff :
    (dock : Dock) (c : Credentials) (who : Identity)
    → (require_admin dock c ≡ ok who → IsGranted dock c who)
      × (IsGranted dock c who → require_admin dock c ≡ ok who)
require_admin_iff dock c who = (granted dock c who, let_through dock c who)
