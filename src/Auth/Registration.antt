-- ===== src/Auth/Registration.antt =====
-- What a registration stores.
use nexus_hub_contract.Prelude.{◌+◌, ◌≡◌, refl, String, true, false, none, some, arith}
use nexus_hub_contract.Prelude.Int.{pos}
use nexus_hub_contract.Model.Enums.{UserStatus}
use nexus_hub_contract.Model.Rows.{User, Balance}
use nexus_hub_contract.Prisma.Client.{Client, IsLawful}
use nexus_hub_contract.Prisma.World.{World, user_of, balance_of, token_of}
use nexus_hub_contract.Prisma.Action.{ok}
use nexus_hub_contract.Auth.{
  RegisterDto, TokenPair, Crypto, thirty_days, has_email, generate_token_pair, create_user,
  register,
}
use nexus_hub_contract.Auth.Laws.{IsIssued}

module _ (c : Client) (laws : IsLawful c) (crypto : Crypto) where
  -- A registration under an address that is taken neither as it is written nor in lower case, with
  -- a hash that its password meets and ids that are not taken, gives a pair, a user who awaits
  -- verification in the role that was asked for, and an empty balance.
  pub register_lem :
      (dto : RegisterDto) (w : World c)
      → ((salt password : String) → crypto.compare password (crypto.hash salt password) ≡ true)
      → c.find_first User (has_email dto.email) w.db.users ≡ none
      → c.find_first User (has_email (crypto.to_lower_case dto.email)) w.db.users ≡ none
      → user_of w (c.uuid (w.drawn + 1)) ≡ none
      → balance_of w (c.uuid (w.drawn + 1)) ≡ none
      → token_of w (c.uuid (w.drawn + 2)) ≡ none
      → let (r, v) = register c crypto dto w in
        (p : TokenPair) × (u : User) × (b : Balance) × (r ≡ ok p)
        × IsIssued c v p.refresh_token u.id w.now
        × (user_of v u.id ≡ some u)
        × (u.email ≡ crypto.to_lower_case dto.email)
        × (crypto.compare dto.password u.password_hash ≡ true)
        × (u.role ≡ dto.role)
        × (u.status ≡ UserStatus.pending_verification)
        × (balance_of v u.id ≡ some b)
        × (b.available_amount ≡ pos 0)
        × (b.reserved_amount ≡ pos 0)
  unfolding register create_user generate_token_pair
  register_lem dto w meets new new_lower no_user no_balance no_token =
      let hash = crypto.hash (c.uuid w.drawn) dto.password in
      let id = c.uuid (w.drawn + 1) in
      let email = crypto.to_lower_case dto.email in
      let u : User = record {
        id = id;
        email = email;
        password_hash = hash;
        role = dto.role;
        status = UserStatus.pending_verification;
        first_name = dto.first_name;
        last_name = dto.last_name;
        stellar_public_key = none;
        stellar_secret_encrypted = none;
      } in
      let b : Balance = record {
        user_id = id;
        available_amount = pos 0;
        reserved_amount = pos 0;
        version = 0;
      } in
      (
        record {
          access_token = crypto.sign (record { sub = id; email = email; role = dto.role }) w.now;
          refresh_token = c.uuid (w.drawn + 2);
        },
        u,
        b,
        grind arith,
        (
          record {
            id = c.uuid (w.drawn + 3);
            token = c.uuid (w.drawn + 2);
            user_id = id;
            expires_at = w.now + thirty_days;
            is_revoked = false;
          },
          grind (arith, laws.find-create_self),
          refl,
          refl,
          refl,
        ),
        grind (arith, laws.find-create_self),
        refl,
        meets (c.uuid w.drawn) dto.password,
        refl,
        refl,
        grind (arith, laws.find-create_self),
        refl,
        refl,
      )
