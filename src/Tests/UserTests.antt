-- ===== src/Tests/UserTests.antt =====
-- Users and their tokens at concrete inputs.
use nexus_hub_contract.Prelude.{◌≡◌, refl, some, String-discrete, ◌==◌}
use nexus_hub_contract.Model.Enums.{UserRole}
use nexus_hub_contract.Prisma.World.{token_of}
use nexus_hub_contract.Prisma.Action.{ok}
use nexus_hub_contract.Prisma.Memory.{memory, memory-IsLawful}
use nexus_hub_contract.Auth.{RegisterDto, LoginDto, TokenPair, Crypto, revoke, refresh}
use nexus_hub_contract.Auth.Laws.{IsIssued, refresh_rotates}
use nexus_hub_contract.Tests.Fixtures.{alice, token, funded_world}

-- A hash that is the password itself.
abbrev pub plain : Crypto
plain = record {
  hash = λ salt password. password;
  compare = λ password hash. password == hash;
  sign = λ payload now. payload.sub;
  to_lower_case = λ s. s;
}

refresh_rotates_example :
    (p : TokenPair) × ((refresh memory plain "tok" funded_world).0 ≡ ok p)
    × IsIssued memory (refresh memory plain "tok" funded_world).1 p.refresh_token "alice" 7
    × (token_of (refresh memory plain "tok" funded_world).1 "tok" ≡ some (revoke token))
unfolding String-discrete
refresh_rotates_example =
    refresh_rotates memory memory-IsLawful plain "tok" funded_world {t = token} {u = alice} refl
      refl refl refl refl

abbrev bobs : LoginDto
bobs = record { email = "bob@x.io"; password = "pw" }

abbrev newcomer : RegisterDto
newcomer = record {
  email = "dan@x.io";
  password = "pw";
  first_name = "Dan";
  last_name = "D";
  role = UserRole.client;
}
