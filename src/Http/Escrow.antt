-- ===== src/Http/Escrow.antt =====
-- EscrowController of apps/api/src/escrow/escrow.controller.ts, behind JwtAuthGuard and RolesGuard.
-- No handler is marked `@Public()`.
pub mod Access
use nexus_hub_contract.Prelude.{
  ℕ, String, Bool, true, false, not, ◌&&◌, Option, none, some, List, [], ◌∷◌, ⊤, leb, ltb, ◌==◌,
  or_default, if◌then◌else◌,
}
use Prim.Native.String.{len}
use nexus_hub_contract.Model.Enums.{UserRole, user_role_text}
use nexus_hub_contract.Model.Rows.{Escrow}
use nexus_hub_contract.Model.Jobs.{Party}
use nexus_hub_contract.Prisma.Client.{Client}
use nexus_hub_contract.Prisma.World.{World}
use nexus_hub_contract.Prisma.Action.{Action, error, ◌>>=◌, ◌>>◌, pure, or_throw}
use nexus_hub_contract.Paging.{Page}
use nexus_hub_contract.Escrow.Create
use nexus_hub_contract.Escrow.Create.{CreateEscrowDto, Created}
use nexus_hub_contract.Escrow.Requests
use nexus_hub_contract.Escrow.Queries
use nexus_hub_contract.Escrow.Queries.{EscrowDetails, Milestones}
use nexus_hub_contract.Auth.{AuthUser}
use nexus_hub_contract.Worker.Chain.{call}
use nexus_hub_contract.Http.{Nest, Request, Reply, respond}
use nexus_hub_contract.Http.Guards.{
  roles_guard, jwt_auth_guard, parse_uuid, validate_body, idempotency_key,
}

-- A route with its parameters; `page` and `limit` are those that DefaultValuePipe leaves.
pub data Call : Type 0 where
  create : (dto : CreateEscrowDto) → Call
  list : (page limit : ℕ) → Call
  get_one get_milestones : (escrow_id : String) → Call
  release : (escrow_id : String) (feedback : Option String) → Call
  approve_release complete_milestone claim_expired : (escrow_id : String) → Call
  refund : (escrow_id reason : String) → Call
  transfer_admin : (escrow_id : String) → Call

pub data Answer : Type 0 where
  made : Created → Answer
  listed : Page Escrow → Answer
  details : EscrowDetails → Answer
  milestones : Milestones → Answer
  message : String → Answer
  rotated : ℕ → Answer

-- The lists of `@Roles`.
unfoldable pub required_roles : Call → Option (List UserRole)
required_roles (Call.create dto) = some (UserRole.client ∷ [])
required_roles (Call.release id feedback) = some (UserRole.client ∷ [])
required_roles (Call.complete_milestone id) = some (UserRole.freelancer ∷ [])
required_roles (Call.refund id reason) = some (UserRole.admin ∷ [])
required_roles (Call.transfer_admin id) = some (UserRole.admin ∷ [])
required_roles _ = none

-- What Nest answers when a handler returns: 201 for `@Post`, 200 for `@Get`.
abbrev pub status_of : Call → ℕ
status_of (Call.list page limit) = 200
status_of (Call.get_one id) = 200
status_of (Call.get_milestones id) = 200
status_of _ = 201

-- The decorators of CreateEscrowDto, `@IsPositive()`, `@Min` and `@Max` among them.
abbrev pub is_valid_create : (is_uuid : String → Bool) → CreateEscrowDto → Bool
is_valid_create is_uuid dto =
    is_uuid dto.freelancer_id
    && ltb 0 dto.amount.units
    && leb (or_default dto.milestones_total 0) 100

-- `@MinLength(10)`
abbrev pub is_valid_reason : String → Bool
is_valid_reason reason = leb 10 (len reason)

-- `role === 'CLIENT' ? 'CLIENT' : 'FREELANCER'`
abbrev pub party_of : UserRole → Party
party_of role = if user_role_text role == "CLIENT" then Party.client else Party.freelancer

module _ (c : Client) (nest : Nest) where
  -- The pipes of a route, and its method.
  unfoldable pub handle : Request → AuthUser → Call → Action c Answer
  unfolding parse_uuid validate_body idempotency_key
  handle request user (Call.create dto) = do
    key ← idempotency_key c nest request
    validate_body c nest (is_valid_create nest.is_uuid dto)
    created ← Create.create_escrow c user.id dto key
    pure (made created)
  handle request user (Call.list page limit) = do
    rows ← Queries.list_escrows c user.id (user_role_text user.role) page limit
    pure (listed rows)
  handle request user (Call.get_one id) = do
    parse_uuid c nest id
    found ← Queries.get_escrow c user.id id
    pure (details found)
  handle request user (Call.get_milestones id) = do
    parse_uuid c nest id
    found ← Queries.get_milestones c user.id id
    pure (milestones found)
  handle request user (Call.release id feedback) = do
    parse_uuid c nest id
    text ← Requests.release_escrow c user.id id feedback
    pure (message text)
  handle request user (Call.approve_release id) = do
    parse_uuid c nest id
    text ← Requests.approve_release c user.id id (party_of user.role)
    pure (message text)
  handle request user (Call.complete_milestone id) = do
    parse_uuid c nest id
    text ← Requests.complete_milestone c user.id id
    pure (message text)
  handle request user (Call.claim_expired id) = do
    parse_uuid c nest id
    text ← Requests.claim_expired c user.id id
    pure (message text)
  handle request user (Call.refund id reason) = do
    parse_uuid c nest id
    validate_body c nest (is_valid_reason reason)
    text ← Requests.refund_escrow c user.id id reason
    pure (message text)
  handle request user (Call.transfer_admin id) = do
    parse_uuid c nest id
    count ← Queries.transfer_admin c user.id id
    pure (rotated count)

  -- The guards, in the order of `@UseGuards`, and the handler.
  unfoldable pub guarded : Request → Call → Action c Answer
  guarded request route = do
    user ← jwt_auth_guard c nest false request
    call (roles_guard (required_roles route) user)
    current ← or_throw user (error "request.user is undefined")
    handle request current route

  unfoldable pub route_escrow : Request → Call → World c → Reply Answer × World c
  route_escrow request route = respond nest request (status_of route) (guarded request route)
