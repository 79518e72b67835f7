-- ===== src/Web/Session.antt =====
-- The store of apps/web/src/stores/auth.store.ts.
use nexus_hub_contract.Prelude.{String, Bool, Option, none, some, is_some, truthy}
use nexus_hub_contract.Model.Enums.{UserRole, UserStatus}

-- `User` of apps/web/src/types/index.ts
pub record User : Type 0 where
  pub id : String
  pub email : String
  pub first_name : String
  pub last_name : String
  pub role : UserRole
  pub status : UserStatus
  pub airtm_account_id : Option String
  pub stellar_public_key : Option String
  pub created_at : String
  pub updated_at : String

pub record AuthState : Type 0 where
  pub user : Option User
  pub access_token : Option String
  pub refresh_token : Option String

unfoldable pub set_tokens : String → String → AuthState → AuthState
set_tokens access refresh s = record s { access_token = some access; refresh_token = some refresh }

unfoldable pub set_user : User → AuthState → AuthState
set_user user s = record s { user = some user }

unfoldable pub clear_auth : AuthState → AuthState
clear_auth s = record s { user = none; access_token = none; refresh_token = none }

-- `!!get().accessToken`
unfoldable pub is_authenticated : AuthState → Bool
is_authenticated s = is_some (truthy s.access_token)
