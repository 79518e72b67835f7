-- ===== src/Auth.antt =====
-- AuthService of apps/api/src/auth/auth.service.ts. The refresh tokens are keyed by `token`, the
-- users by `id`. bcrypt, the JWT signature and `toLowerCase` are parameters.
pub mod Laws
pub mod Registration
use nexus_hub_contract.Prelude.{
  ℕ, ◌+◌, ◌*◌, String, Bool, true, false, not, ◌&&◌, ◌||◌, Option, none, some, ⊤, nat_eq, leb, ltb,
  ◌==◌, is_some, if◌then◌else◌,
}
use nexus_hub_contract.Prelude.Int.{ℤ, pos}
use nexus_hub_contract.Model.Enums.{UserRole, UserStatus, user_status_index}
use nexus_hub_contract.Model.Rows.{User, RefreshToken, Balance}
use nexus_hub_contract.Prisma.Client.{Client}
use nexus_hub_contract.Prisma.World.{World, users, balances, refresh_tokens}
use nexus_hub_contract.Prisma.Action.{
  Action, conflict, unauthorized, error, ◌>>=◌, ◌>>◌, pure, throw_if, or_throw, find_unique,
  find_first, create, create_unique, update, update_many, transaction, fresh_id, new_date,
}

pub record RegisterDto : Type 0 where
  pub email : String
  pub password : String
  pub first_name : String
  pub last_name : String
  pub role : UserRole

pub record LoginDto : Type 0 where
  pub email : String
  pub password : String

pub record JwtPayload : Type 0 where
  pub sub : String
  pub email : String
  pub role : UserRole

pub record TokenPair : Type 0 where
  pub access_token : String
  pub refresh_token : String

-- What validateUser selects.
pub record AuthUser : Type 0 where
  pub id : String
  pub email : String
  pub role : UserRole
  pub status : UserStatus

pub record Crypto : Type 0 where
  -- `bcrypt.hash(password, 12)`, with the salt that it draws.
  pub hash : String → String → String
  -- `bcrypt.compare(password, hash)`
  pub compare : String → String → Bool
  -- `jwtService.sign(payload)`, at a time.
  pub sign : JwtPayload → ℕ → String
  pub to_lower_case : String → String

abbrev pub is_suspended : UserStatus → Bool
is_suspended s = nat_eq (user_status_index s) (user_status_index UserStatus.suspended)

-- `setDate(getDate() + 30)`, in milliseconds.
abbrev pub thirty_days : ℕ
thirty_days = 30 * 86_400_000

abbrev pub has_email : String → User → Bool
has_email email u = u.email == email

-- `where: { token: refreshToken, isRevoked: false }`
abbrev pub is_live_token : String → RefreshToken → Bool
is_live_token token t = t.token == token && not t.is_revoked

abbrev pub revoke : RefreshToken → RefreshToken
revoke t = record t { is_revoked = true }

-- `!stored || stored.isRevoked || stored.expiresAt < new Date()`
abbrev pub is_refused : ℕ → Option RefreshToken → Bool
is_refused now none = true
is_refused now (some t) = t.is_revoked || ltb t.expires_at now

module _ (c : Client) (crypto : Crypto) where
  unfoldable pub generate_token_pair : String → String → UserRole → Action c TokenPair
  generate_token_pair user_id email role = do
    now ← new_date
    let payload : JwtPayload = record { sub = user_id; email = email; role = role }
    refresh_token ← fresh_id
    id ← fresh_id
    create (refresh_tokens c) refresh_token (record {
      id = id;
      token = refresh_token;
      user_id = user_id;
      expires_at = now + thirty_days;
      is_revoked = false;
    })
    pure (record { access_token = crypto.sign payload now; refresh_token = refresh_token })

  -- The transaction of register.
  unfoldable pub create_user : RegisterDto → String → Action c User
  create_user dto password_hash = transaction do
    id ← fresh_id
    let email = crypto.to_lower_case dto.email
    new_user ← create_unique (users c) id (has_email email) (record {
      id = id;
      email = email;
      password_hash = password_hash;
      role = dto.role;
      status = UserStatus.pending_verification;
      first_name = dto.first_name;
      last_name = dto.last_name;
      stellar_public_key = none;
      stellar_secret_encrypted = none;
    })
    create (balances c) id
        (record { user_id = id; available_amount = pos 0; reserved_amount = pos 0; version = 0 })
    pure new_user

  unfoldable pub register : RegisterDto → Action c TokenPair
  unfolding generate_token_pair create_user
  register dto = do
    existing ← find_first (users c) (has_email dto.email)
    throw_if (is_some existing) (conflict "Email already registered")
    salt ← fresh_id
    user ← create_user dto (crypto.hash salt dto.password)
    generate_token_pair user.id user.email user.role

  unfoldable pub login : LoginDto → Action c TokenPair
  unfolding generate_token_pair
  login dto = do
    found ← find_first (users c) (has_email (crypto.to_lower_case dto.email))
    user ← or_throw found (unauthorized "Invalid credentials")
    throw_if (not (crypto.compare dto.password user.password_hash))
        (unauthorized "Invalid credentials")
    throw_if (is_suspended user.status) (unauthorized "Account suspended. Contact support.")
    generate_token_pair user.id user.email user.role

  -- The row of the token is the one with the id `stored.id`.
  unfoldable pub refresh : String → Action c TokenPair
  unfolding generate_token_pair
  refresh refresh_token = do
    stored ← find_unique (refresh_tokens c) refresh_token
    now ← new_date
    throw_if (is_refused now stored) (unauthorized "Invalid or expired refresh token")
    token ← or_throw stored (unauthorized "Invalid or expired refresh token")
    owner ← find_unique (users c) token.user_id
    update (refresh_tokens c) refresh_token revoke
    user ← or_throw owner (error "Cannot read properties of null (reading 'id')")
    generate_token_pair user.id user.email user.role

module _ (c : Client) where
  unfoldable pub logout : String → Action c ⊤
  logout refresh_token = do
    update_many (refresh_tokens c) (is_live_token refresh_token) revoke
    pure tt

  unfoldable pub validate_user : JwtPayload → Action c (Option AuthUser)
  validate_user payload = do
    found ← find_unique (users c) payload.sub
    pure (elim found [
      | none ↦ none
      | some u ↦
          if is_suspended u.status
          then none
          else some (record { id = u.id; email = u.email; role = u.role; status = u.status })
    ])
