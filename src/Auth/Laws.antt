-- ===== src/Auth/Laws.antt =====
-- Who gets tokens, and how long a refresh token serves.
use nexus_hub_contract.Prelude.{
  ℕ, ◌+◌, ◌≡◌, refl, inl, inr, Bool-cases, String, true, false, none, some, arith, ltb,
  if◌then◌else◌, ◌∙◌, ap,
}
use nexus_hub_contract.Model.Enums.{UserRole, UserStatus}
use nexus_hub_contract.Model.Rows.{User, RefreshToken}
use nexus_hub_contract.Prisma.Client.{Client, IsLawful}
use nexus_hub_contract.Prisma.World.{World, user_of, token_of}
use nexus_hub_contract.Prisma.Action.{Exception, ok, throws, unauthorized}
use nexus_hub_contract.Auth.{
  LoginDto, JwtPayload, TokenPair, Crypto, thirty_days, has_email, revoke, is_live_token,
  is_suspended, generate_token_pair, login, refresh, logout, validate_user,
}

-- A token that `user_id` may use from now on, for thirty days.
abbrev pub IsIssued : (c : Client) → World c → String → String → ℕ → Type 0
IsIssued c w token user_id now =
    (t : RefreshToken) × (token_of w token ≡ some t)
    × (t.user_id ≡ user_id)
    × (t.is_revoked ≡ false)
    × (t.expires_at ≡ now + thirty_days)

-- To revoke a token where it is live, and to leave it where it was revoked, is the same as to
-- revoke it.
revoke-live :
    (token : String) (t : RefreshToken)
    → t.token ≡ token
    → (if is_live_token token t then revoke t else t) ≡ revoke t
revoke-live token t same = elim (Bool-cases t.is_revoked) [
  | inl dead ↦ grind arith
  | inr live ↦ grind arith
]

module _ (c : Client) (laws : IsLawful c) (crypto : Crypto) where
  generate_token_pair_lem :
      (user_id email : String) (role : UserRole) (w : World c)
      → token_of w (c.uuid w.drawn) ≡ none
      → let (r, v) = generate_token_pair c crypto user_id email role w in
        (p : TokenPair) × (r ≡ ok p)
        × (p.refresh_token ≡ c.uuid w.drawn)
        × IsIssued c v p.refresh_token user_id w.now
        × (v.db.users ≡ w.db.users)
        × (v.db.balances ≡ w.db.balances)
  unfolding generate_token_pair
  generate_token_pair_lem user_id email role w fresh = (
    record {
      access_token = crypto.sign (record { sub = user_id; email = email; role = role }) w.now;
      refresh_token = c.uuid w.drawn;
    },
    ground arith,
    refl,
    (
      record {
        id = c.uuid (w.drawn + 1);
        token = c.uuid w.drawn;
        user_id = user_id;
        expires_at = w.now + thirty_days;
        is_revoked = false;
      },
      grind (arith, laws.find-create_self),
      refl,
      refl,
      refl,
    ),
    ground arith,
    ground arith,
  )

  -- A stored token that was not revoked and is not expired is revoked by its use, and the pair
  -- holds another that its owner may use for thirty days.
  pub refresh_rotates :
      (token : String) (w : World c) {t : RefreshToken} {u : User}
      → token_of w token ≡ some t
      → t.is_revoked ≡ false
      → ltb t.expires_at w.now ≡ false
      → user_of w t.user_id ≡ some u
      → token_of w (c.uuid w.drawn) ≡ none
      → let (r, v) = refresh c crypto token w in
        (p : TokenPair) × (r ≡ ok p)
        × IsIssued c v p.refresh_token u.id w.now
        × (token_of v token ≡ some (revoke t))
  unfolding refresh generate_token_pair
  refresh_rotates token w {t} {u} ht live unexpired hu fresh = (
    record {
      access_token = crypto.sign (record { sub = u.id; email = u.email; role = u.role }) w.now;
      refresh_token = c.uuid w.drawn;
    },
    grind (arith, laws.find-update_ne),
    (
      record {
        id = c.uuid (w.drawn + 1);
        token = c.uuid w.drawn;
        user_id = u.id;
        expires_at = w.now + thirty_days;
        is_revoked = false;
      },
      grind (arith, laws.find-create_self, laws.find-update_ne),
      refl,
      refl,
      refl,
    ),
    grind (arith, laws.find-create_ne, laws.find-update_self, laws.find-update_ne),
  )

  -- A revoked token is refused, and its use changes nothing.
  pub refresh_revoked :
      (token : String) (w : World c) {t : RefreshToken}
      → token_of w token ≡ some t
      → t.is_revoked ≡ true
      → refresh c crypto token w ≡ (throws (unauthorized "Invalid or expired refresh token"), w)
  unfolding refresh
  refresh_revoked token w ht revoked = grind arith

  -- After a logout a stored token is revoked and refused, whether it was live or not.
  pub logout_revokes :
      (token : String) (w : World c) {t : RefreshToken}
      → token_of w token ≡ some t
      → t.token ≡ token
      → let (r, v) = logout c token w in
        (r ≡ ok tt)
        × (token_of v token ≡ some (revoke t))
        × (refresh c crypto token v ≡ (throws (unauthorized "Invalid or expired refresh token"), v))
  unfolding logout
  logout_revokes token w {t} ht same =
      let v = (logout c token w).1 in
      let row : token_of v token ≡ some (revoke t) =
        laws.find-update_many _ token (is_live_token token) revoke t w.db.refresh_tokens ht
        ∙ ap some (revoke-live token t same) in
      (ground arith, row, refresh_revoked token v row refl)

  -- A suspended user gets no tokens by a password, right or wrong, and a valid access token of
  -- theirs stands for nobody; nothing changes.
  pub suspended-shut :
      (dto : LoginDto) (payload : JwtPayload) (w : World c) {u : User}
      → c.find_first User (has_email (crypto.to_lower_case dto.email)) w.db.users ≡ some u
      → user_of w payload.sub ≡ some u
      → u.status ≡ UserStatus.suspended
      → ((x : Exception) × (login c crypto dto w ≡ (throws x, w)))
        × (validate_user c payload w ≡ (ok none, w))
  unfolding login validate_user
  suspended-shut dto payload w {u} hl hv hs = (
    elim (Bool-cases (crypto.compare dto.password u.password_hash)) [
      | inl right ↦ (unauthorized "Account suspended. Contact support.", grind arith)
      | inr wrong ↦ (unauthorized "Invalid credentials", grind arith)
    ],
    grind arith,
  )

  -- The right password of a user who is not suspended gives a pair, whose refresh token that user
  -- may use for thirty days.
  pub login_lem :
      (dto : LoginDto) (w : World c) {u : User}
      → c.find_first User (has_email (crypto.to_lower_case dto.email)) w.db.users ≡ some u
      → crypto.compare dto.password u.password_hash ≡ true
      → is_suspended u.status ≡ false
      → token_of w (c.uuid w.drawn) ≡ none
      → let (r, v) = login c crypto dto w in
        (p : TokenPair) × (r ≡ ok p) × IsIssued c v p.refresh_token u.id w.now
  unfolding login
  login_lem dto w {u} hu right active fresh =
      let (p, done, _, issued, _, _) = generate_token_pair_lem u.id u.email u.role w fresh in
      (p, rw (hu, right, active) done, rw (hu, right, active) issued)
