-- ===== src/Http/Auth.antt =====
-- AuthController of apps/api/src/auth/auth.controller.ts and BalancesController, with the decorators
-- of the DTOs in auth/dto. AuthController has no guard.
use Prim.Native.String.{len}
use nexus_hub_contract.Prelude.{ℕ, String, Bool, false, ◌&&◌, Option, leb, or_default}
use nexus_hub_contract.Model.Enums.{UserRole, TransactionType}
use nexus_hub_contract.Model.Rows.{User, Balance, Transaction}
use nexus_hub_contract.Prisma.Client.{Client}
use nexus_hub_contract.Prisma.World.{World}
use nexus_hub_contract.Prisma.Action.{error, ◌>>=◌, ◌>>◌, pure, or_throw}
use nexus_hub_contract.Paging.{Page}
use nexus_hub_contract.Auth
use nexus_hub_contract.Auth.{RegisterDto, LoginDto, TokenPair, Crypto}
use nexus_hub_contract.Balances
use nexus_hub_contract.Http.{Nest, Request, Reply, respond}
use nexus_hub_contract.Http.Guards.{jwt_auth_guard, validate_body}

-- A body of POST /auth/register; the role may be left out.
pub record RegisterBody : Type 0 where
  pub email : String
  pub password : String
  pub first_name : String
  pub last_name : String
  pub role : Option UserRole

-- `role?: UserRole = UserRole.CLIENT`
abbrev pub register_dto : RegisterBody → RegisterDto
register_dto b = record {
  email = b.email;
  password = b.password;
  first_name = b.first_name;
  last_name = b.last_name;
  role = or_default b.role UserRole.client;
}

-- The decorators of RegisterDto: `@IsEmail()` and `@MinLength(8)`; each role meets `@IsEnum`.
abbrev pub is_valid_register : (is_email : String → Bool) → RegisterBody → Bool
is_valid_register is_email b = is_email b.email && leb 8 (len b.password)

module _ (c : Client) (nest : Nest) where
  unfoldable pub route_register :
      Crypto → Request → RegisterBody → World c → Reply TokenPair × World c
  unfolding validate_body
  route_register crypto request body = respond nest request 201 do
    validate_body c nest (is_valid_register nest.is_email body)
    Auth.register c crypto (register_dto body)

  unfoldable pub route_login : Crypto → Request → LoginDto → World c → Reply TokenPair × World c
  unfolding validate_body
  route_login crypto request dto =
      respond nest request 200
        do validate_body c nest (nest.is_email dto.email); Auth.login c crypto dto

  unfoldable pub route_refresh : Crypto → Request → String → World c → Reply TokenPair × World c
  route_refresh crypto request token = respond nest request 200 (Auth.refresh c crypto token)

  unfoldable pub route_logout : Request → String → World c → Reply String × World c
  route_logout request token =
      respond nest request 200 do Auth.logout c token; pure "Logged out successfully"

  -- BalancesController has JwtAuthGuard alone.
  unfoldable pub route_balance : Request → World c → Reply (Balance × Option User) × World c
  route_balance request = respond nest request 200 do
    user ← jwt_auth_guard c nest false request
    current ← or_throw user (error "request.user is undefined")
    Balances.get_balance c current.id

  unfoldable pub route_transactions :
      Request → ℕ → ℕ → Option TransactionType → World c → Reply (Page Transaction) × World c
  route_transactions request page limit type = respond nest request 200 do
    user ← jwt_auth_guard c nest false request
    current ← or_throw user (error "request.user is undefined")
    Balances.get_transaction_history c current.id page limit type
