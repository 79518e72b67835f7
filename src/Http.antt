-- ===== src/Http.antt =====
-- How the API answers a request: the guards, pipes, interceptor and exception filter around the
-- handlers of the controllers. Files: apps/api/src/common and the controllers of apps/api/src.
pub mod Guards
pub mod Status
pub mod Escrow
pub mod Auth
pub mod Escalation
use nexus_hub_contract.Prelude.{ℕ, String, Bool, Option, or_default}
use nexus_hub_contract.Prisma.Client.{Client}
use nexus_hub_contract.Prisma.World.{World}
use nexus_hub_contract.Prisma.Action.{Action, Exception, Result, ok, throws}
use nexus_hub_contract.Auth.{JwtPayload}

-- What the source uses of @nestjs/common, passport-jwt and class-validator.
pub record Nest : Type 0 where
  -- `getStatus()`, of an exception that is an HttpException.
  pub get_status : Exception → Option ℕ
  -- The message of `getResponse()`.
  pub get_message : Exception → String
  -- The payload of the bearer token of an Authorization header, if the token is valid at a time.
  pub authenticate : Option String → ℕ → Option JwtPayload
  -- `@IsUUID()` and ParseUUIDPipe; `@IsEmail()`.
  pub is_uuid : String → Bool
  pub is_email : String → Bool
  -- The message of ParseUUIDPipe, and that of ValidationPipe.
  pub uuid_message : String
  pub validation_message : String

pub record Request : Type 0 where
  pub url : String
  pub method : String
  pub authorization : Option String
  pub idempotency_key : Option String

-- The body of a response: that of ResponseInterceptor, and that of HttpExceptionFilter.
pub data Reply (A : Type 0) : Type 0 where
  success : (status_code : ℕ) (value : A) (timestamp : ℕ) → Reply A
  failure : (status_code timestamp : ℕ) (path method message : String) → Reply A

abbrev message_of : Nest → Exception → Option ℕ → String
message_of nest x Option.none = "Internal server error"
message_of nest x (Option.some _) = nest.get_message x

-- HttpExceptionFilter.catch
unfoldable pub catch_exception : {A : Type 0} → Nest → Request → ℕ → Exception → Reply A
catch_exception nest request now x =
    failure (or_default (nest.get_status x) 500) now request.url request.method
      (message_of nest x (nest.get_status x))

-- ResponseInterceptor.intercept
unfoldable pub intercept : {A : Type 0} → ℕ → ℕ → A → Reply A
intercept status_code now value = success status_code value now

module _ {c : Client} where
  abbrev pub reply : {A : Type 0} → Nest → Request → ℕ → Result A × World c → Reply A × World c
  reply nest request status_code (ok a, v) = (intercept status_code v.now a, v)
  reply nest request status_code (throws x, v) = (catch_exception nest request v.now x, v)

  -- A handler with what surrounds it, and the status of its route.
  unfoldable pub respond :
      {A : Type 0} → Nest → Request → ℕ → Action c A → World c → Reply A × World c
  unfolding catch_exception intercept
  respond nest request status_code m w = reply nest request status_code (m w)
