-- ===== src/Http/Escalation.antt =====
-- POST /auth/register stores the role that the request names, ADMIN included.
use nexus_hub_contract.Prelude.{
  ◌+◌, ◌≡◌, refl, String, true, Option, none, some, [], ◌∷◌, arith, ap, ◌∙◌, or_default,
}
use nexus_hub_contract.Model.Enums.{UserRole, UserStatus, EscrowStatus, includes}
use nexus_hub_contract.Model.Rows.{User, Escrow}
use nexus_hub_contract.Model.Jobs.{EscrowJob}
use nexus_hub_contract.Prisma.Client.{Client, IsLawful}
use nexus_hub_contract.Prisma.World.{World, user_of, balance_of, token_of, escrow_of}
use nexus_hub_contract.Auth.{
  RegisterDto, Crypto, JwtPayload, AuthUser, has_email, register, create_user, generate_token_pair,
}
use nexus_hub_contract.Escrow.Create.{escrow_job_options}
use nexus_hub_contract.Escrow.Requests.{refund_escrow}
use nexus_hub_contract.Http.{Nest, Request, respond}
use nexus_hub_contract.Http.Auth.{RegisterBody, is_valid_register, register_dto, route_register}
use nexus_hub_contract.Http.Escrow.{Call, handle, is_valid_reason, route_escrow}
use nexus_hub_contract.Http.Escrow.Access.{speaker, status_code, route_escrow_reached}

module _ (c : Client) (nest : Nest) where
  -- The refund of an escrow that may be refunded, by an administrator.
  admin_refund :
      (request : Request) (user : AuthUser) (id reason : String) (w : World c) {e : Escrow}
      → speaker nest request w ≡ some user
      → user.role ≡ UserRole.admin
      → nest.is_uuid id ≡ true
      → is_valid_reason reason ≡ true
      → escrow_of w id ≡ some e
      → includes (EscrowStatus.funded ∷ EscrowStatus.active ∷ EscrowStatus.disputed ∷ []) e.status
        ≡ true
      → let (answer, v) = route_escrow c nest request (Call.refund id reason) w in
        (status_code answer ≡ 201)
        × (v.escrow_queue
            ≡ (EscrowJob.refund_escrow id user.id reason, escrow_job_options) ∷ w.escrow_queue)
  unfolding handle respond refund_escrow
  admin_refund request user id reason w who admin uuid long stored refundable =
      let reached =
        route_escrow_reached c nest request (Call.refund id reason) w user who (rw admin refl) in
      rw reached (ground arith)

  route_register-world :
      (crypto : Crypto) (request : Request) (body : RegisterBody) (w : World c)
      → is_valid_register nest.is_email body ≡ true
      → (route_register c nest crypto request body w).1
        ≡ (register c crypto (register_dto body) w).1
  unfolding route_register respond
  route_register-world crypto request body w valid = ground arith

module _ (c : Client) (laws : IsLawful c) (crypto : Crypto) where
  register-escrows :
      (dto : RegisterDto) (w : World c)
      → ((register c crypto dto w).1.db.escrows ≡ w.db.escrows)
        × ((register c crypto dto w).1.now ≡ w.now)
  unfolding register create_user generate_token_pair
  register-escrows dto w = grind (arith, laws.rollback_lem)

  -- The user that a registration makes, as the guard sees them.
  abbrev new_user : String → RegisterDto → AuthUser
  new_user id dto = record {
    id = id;
    email = crypto.to_lower_case dto.email;
    role = dto.role;
    status = UserStatus.pending_verification;
  }

  registered-speaker :
      (nest : Nest) (request : Request) (payload : JwtPayload) (dto : RegisterDto) (w : World c)
      → c.find_first User (has_email dto.email) w.db.users ≡ none
      → c.find_first User (has_email (crypto.to_lower_case dto.email)) w.db.users ≡ none
      → user_of w (c.uuid (w.drawn + 1)) ≡ none
      → balance_of w (c.uuid (w.drawn + 1)) ≡ none
      → token_of w (c.uuid (w.drawn + 2)) ≡ none
      → nest.authenticate request.authorization w.now ≡ some payload
      → payload.sub ≡ c.uuid (w.drawn + 1)
      → speaker nest request (register c crypto dto w).1
        ≡ some (new_user (c.uuid (w.drawn + 1)) dto)
  unfolding register create_user generate_token_pair
  registered-speaker nest request payload dto w new new_lower no_user no_balance no_token authentic
        sub =
      grind (arith, laws.find-create_self)

module _ (c : Client) (laws : IsLawful c) (nest : Nest) (crypto : Crypto) where
  -- Whoever registers by POST /auth/register with the role ADMIN, under a free address and with ids
  -- that are not taken, can at once refund any escrow that is FUNDED, ACTIVE or DISPUTED: a request
  -- with a token of the new user and a reason that is long enough is answered with 201, and the job
  -- is queued.
  pub registered_admin_refunds :
      (first request : Request) (body : RegisterBody) (payload : JwtPayload) (id reason : String)
      (w : World c) (e : Escrow)
      → body.role ≡ some UserRole.admin
      → is_valid_register nest.is_email body ≡ true
      → c.find_first User (has_email body.email) w.db.users ≡ none
      → c.find_first User (has_email (crypto.to_lower_case body.email)) w.db.users ≡ none
      → user_of w (c.uuid (w.drawn + 1)) ≡ none
      → balance_of w (c.uuid (w.drawn + 1)) ≡ none
      → token_of w (c.uuid (w.drawn + 2)) ≡ none
      → nest.authenticate request.authorization w.now ≡ some payload
      → payload.sub ≡ c.uuid (w.drawn + 1)
      → nest.is_uuid id ≡ true
      → is_valid_reason reason ≡ true
      → escrow_of w id ≡ some e
      → includes (EscrowStatus.funded ∷ EscrowStatus.active ∷ EscrowStatus.disputed ∷ []) e.status
        ≡ true
      → let v = (route_register c nest crypto first body w).1 in
        let (answer, u) = route_escrow c nest request (Call.refund id reason) v in
        (status_code answer ≡ 201)
        × (u.escrow_queue
            ≡ (EscrowJob.refund_escrow id (c.uuid (w.drawn + 1)) reason, escrow_job_options)
              ∷ v.escrow_queue)
  registered_admin_refunds first request body payload id reason w e admin valid new new_lower
        no_user no_balance no_token authentic sub uuid long stored refundable =
      let dto = register_dto body in
      let who =
        registered-speaker c laws crypto nest request payload dto w new new_lower no_user no_balance
          no_token authentic sub in
      let role : dto.role ≡ UserRole.admin =
        ap (λ (r : Option UserRole). or_default r UserRole.client) admin in
      let (escrows, _) = register-escrows c laws crypto dto w in
      rw (route_register-world c nest crypto first body w valid) (
        admin_refund c nest request (new_user c laws crypto (c.uuid (w.drawn + 1)) dto) id reason
          (register c crypto dto w).1 {e = e} who role uuid long
          (ap (c.find_unique Escrow id) escrows ∙ stored) refundable)
