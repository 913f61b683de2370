-- ===== src/Tenants/Requests.antt =====
-- The routes of apps/api/src/domains/tenants/router.py that change the tables: each calls the service
-- and commits. A request's state is kept if the handler returns and dropped if it raises.
use saas_genai_starter.Common.{ℕ, Bool, true, false, any, ◌==◌, List, [], ◌∷◌, String, Option}
use saas_genai_starter.Core.Action.{Result, ok, err, crash, request, ◌>>=◌, ◌>>◌}
use saas_genai_starter.Tenants.Models.{Role, Tables}
use saas_genai_starter.Tenants.Service.{
  AuthenticatedUser, Env, Db, list_organizations, create_organization_for, rename_organization,
  update_member_role, remove_member,
}
use saas_genai_starter.Tenants.Invitations.{create_invitation, revoke_invitation, accept_invitation}
pub mod Members
pub mod Kept
pub mod Invited

pub data Request : Type 0 where
  list : Request
  create : String → Request
  rename : ℕ → String → Request
  change_role : ℕ → ℕ → Role → Request
  remove : ℕ → ℕ → Request
  invite : ℕ → String → Role → Request
  revoke : ℕ → ℕ → Request
  accept : String → Request

-- `next(...)` with nothing found
unfoldable pub raise_stop : Bool → Db (Unit {0})
raise_stop true t = (ok tt, t)
raise_stop false t = (crash "StopIteration", t)

-- The answer of `rename_organization` is read back from the list of the user's organizations.
unfoldable pub read_back : Env → AuthenticatedUser → ℕ → Db (Unit {0})
read_back env user org = do
  found ← list_organizations env user
  raise_stop (any (λ m. m.organization_id == org) found)

unfoldable pub rename_route : Env → AuthenticatedUser → ℕ → String → Db (Unit {0})
rename_route env user org name = do rename_organization user org name; read_back env user org

module _ (lower hash : String → String) where
  -- The tables after a request of `user`.
  unfoldable pub serve : Env → AuthenticatedUser → Request → Tables → Tables
  serve env user list t = (request (list_organizations env user) t).1
  serve env user (create name) t = (request (create_organization_for env user name) t).1
  serve env user (rename org name) t = (request (rename_route env user org name) t).1
  serve env user (change_role org target r) t = (request (update_member_role user org target r) t).1
  serve env user (remove org target) t = (request (remove_member user org target) t).1
  serve env user (invite org email r) t =
      (request (create_invitation lower hash env user org email r) t).1
  serve env user (revoke org id) t = (request (revoke_invitation env.now user org id) t).1
  serve env user (accept token) t = (request (accept_invitation lower hash env user token) t).1

  -- A history of requests, each with its user and what the clock and the generators gave it.
  unfoldable pub serve_all : List (Env × AuthenticatedUser × Request) → Tables → Tables
  serve_all [] t = t
  serve_all ((env, user, r) ∷ rs) t = serve_all rs (serve env user r t)
