-- ===== src/Http/Guards.antt =====
-- JwtAuthGuard and RolesGuard of common/guards/index.ts, JwtStrategy, and the parameter decorators.
use nexus_hub_contract.Prelude.{
  String, ◌<>◌, Bool, true, false, not, Option, none, some, List, [], ◌∷◌, ⊤, if◌then◌else◌, truthy,
}
use nexus_hub_contract.Model.Enums.{UserRole, user_role_text, includes_role}
use nexus_hub_contract.Prisma.Client.{Client}
use nexus_hub_contract.Prisma.Action.{
  Action, Result, ok, throws, bad_request, forbidden, unauthorized, ◌>>=◌, pure, or_throw, throw_if,
  new_date,
}
use nexus_hub_contract.Auth.{AuthUser, JwtPayload, validate_user}
use nexus_hub_contract.Http.{Nest, Request}

-- `requiredRoles.join(' or ')`
abbrev joined : List UserRole → String
joined [] = ""
joined (r ∷ []) = user_role_text r
joined (r ∷ s ∷ rs) = user_role_text r <> " or " <> joined (s ∷ rs)

abbrev pub denied : List UserRole → UserRole → String
denied roles role = "Required role: " <> joined roles <> ". Your role: " <> user_role_text role

abbrev check_role : List UserRole → Option AuthUser → Result ⊤
check_role roles none = throws (forbidden "Access denied")
check_role roles (some user) =
    if includes_role roles user.role then ok tt else throws (forbidden (denied roles user.role))

-- RolesGuard.canActivate, with the metadata of `@Roles`.
unfoldable pub roles_guard : Option (List UserRole) → Option AuthUser → Result ⊤
roles_guard none user = ok tt
roles_guard (some []) user = ok tt
roles_guard (some (r ∷ rs)) user = check_role (r ∷ rs) user

module _ (c : Client) (nest : Nest) where
  -- JwtStrategy.validate
  unfoldable pub validate : JwtPayload → Action c AuthUser
  validate payload = do
    found ← validate_user c payload
    or_throw found (unauthorized "Token invalid or user inactive")

  -- AuthGuard('jwt'), which hands the payload of a valid token to the strategy.
  unfoldable pub authenticate : Request → Action c AuthUser
  unfolding validate
  authenticate request = do
    now ← new_date
    payload ← or_throw (nest.authenticate request.authorization now) (unauthorized "Unauthorized")
    validate payload

  -- JwtAuthGuard.canActivate, with the metadata of `@Public`; it leaves `request.user`.
  unfoldable pub jwt_auth_guard : (is_public : Bool) → Request → Action c (Option AuthUser)
  unfolding authenticate
  jwt_auth_guard true request = pure none
  jwt_auth_guard false request = do user ← authenticate request; pure (some user)

  -- ParseUUIDPipe
  unfoldable pub parse_uuid : String → Action c ⊤
  parse_uuid id = throw_if (not (nest.is_uuid id)) (bad_request nest.uuid_message)

  -- ValidationPipe, on whether the body meets the decorators of its DTO.
  unfoldable pub validate_body : Bool → Action c ⊤
  validate_body is_valid = throw_if (not is_valid) (bad_request nest.validation_message)

  -- `@IdempotencyKey()`
  unfoldable pub idempotency_key : Request → Action c String
  idempotency_key request =
      or_throw (truthy request.idempotency_key) (bad_request "X-Idempotency-Key header is required")
