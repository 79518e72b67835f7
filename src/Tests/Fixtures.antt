-- ===== src/Tests/Fixtures.antt =====
-- A small world: a client, a freelancer, an escrow of 100 dollars between them with a fee of 1
-- dollar, and an endpoint of the freelancer.
use nexus_hub_contract.Prelude.{
  String, ◌≡◌, ◌≢◌, refl, true, false, none, some, List, [], ◌∷◌, arith, ◌==◌, String-discrete,
}
use nexus_hub_contract.Prelude.Int.{pos}
use nexus_hub_contract.Model.Enums.{
  UserRole, UserStatus, EscrowStatus, DisputeReason, DisputeStatus, WebhookEvent,
  WebhookDeliveryStatus,
}
use nexus_hub_contract.Model.Rows.{
  User, RefreshToken, Balance, Escrow, Dispute, WebhookEndpoint, WebhookDelivery,
}
use nexus_hub_contract.Prisma.World.{World}
use nexus_hub_contract.Prisma.Memory.{memory}

pub apart : (s t : String) → (s == t) ≡ false → s ≢ t
apart s t h = ground arith

abbrev pub alice : User
alice = record {
  id = "alice";
  email = "alice@x.io";
  password_hash = "pw";
  role = UserRole.client;
  status = UserStatus.active;
  first_name = "Alice";
  last_name = "A";
  stellar_public_key = some "GA";
  stellar_secret_encrypted = some "SA";
}

abbrev pub bob : User
bob = record {
  id = "bob";
  email = "bob@x.io";
  password_hash = "pw";
  role = UserRole.freelancer;
  status = UserStatus.suspended;
  first_name = "Bob";
  last_name = "B";
  stellar_public_key = some "GB";
  stellar_secret_encrypted = some "SB";
}

abbrev pub purse : String → Balance
purse user = record {
  user_id = user;
  available_amount = pos 500_000_000;
  reserved_amount = pos 100_000_000;
  version = 0;
}

abbrev pub job : EscrowStatus → Escrow
job status = record {
  id = "e1";
  client_id = "alice";
  freelancer_id = "bob";
  amount = pos 100_000_000;
  fee = pos 1_000_000;
  status = status;
  description = "logo";
  milestone_title = none;
  milestone_hash = none;
  stellar_contract_id = some "GX_e1";
  stellar_tx_hash = none;
  milestones_total = 2;
  milestones_completed = 1;
  expiry_ledger = 9;
  client_approved = false;
  freelancer_approved = false;
  released_at = none;
  refunded_at = none;
  funded_at = none;
  expired_at = none;
  created_at = 0;
}

abbrev pub token : RefreshToken
token = record { id = "t"; token = "tok"; user_id = "alice"; expires_at = 100; is_revoked = false }

abbrev pub quarrel : Dispute
quarrel = record {
  id = "d1";
  escrow_id = "e1";
  raised_by_id = "alice";
  reason = DisputeReason.fraud;
  status = DisputeStatus.opened;
  description = "late";
  evidence = [];
  resolution = none;
  resolved_at = none;
  created_at = 0;
}

abbrev pub hook : WebhookEndpoint
hook = record {
  id = "h1";
  user_id = "bob";
  url = "https://b.io";
  secret = "s1";
  events = WebhookEvent.escrow_released ∷ [];
  is_active = true;
  description = none;
  created_at = 0;
}

abbrev pub delivery : WebhookDelivery
delivery = record {
  id = "w1";
  endpoint_id = "h1";
  event = WebhookEvent.escrow_released;
  payload = [];
  status = WebhookDeliveryStatus.pending;
  response_code = none;
  response_body = none;
  attempts = 0;
  next_retry_at = none;
  delivered_at = none;
  created_at = 0;
}

-- The escrow in a status, with the disputes given.
abbrev pub world : EscrowStatus → List (String × Dispute) → World memory
world status disputes = record {
  db = record {
    users = ("alice", alice) ∷ ("bob", bob) ∷ [];
    refresh_tokens = ("tok", token) ∷ [];
    balances = ("alice", purse "alice") ∷ ("bob", purse "bob") ∷ ("carol", purse "carol") ∷ [];
    transactions = [];
    escrows = ("e1", job status) ∷ [];
    disputes = disputes;
    webhook_endpoints = ("h1", hook) ∷ [];
    webhook_deliveries = ("w1", delivery) ∷ [];
    audit_logs = [];
  };
  escrow_queue = [];
  webhook_queue = [];
  now = 7;
  drawn = 1;
}

abbrev pub funded_world : World memory
funded_world = world EscrowStatus.funded []

pub eq_same : (s : String) → (s == s) ≡ true
eq_same s = ground arith

abbrev pub Apart : String → String → Type 0
Apart s t = s ≢ t

pub alice_ne_bob : Apart "alice" "bob"
unfolding String-discrete
alice_ne_bob = apart "alice" "bob" refl

pub carol_ne_bob : Apart "carol" "bob"
unfolding String-discrete
carol_ne_bob = apart "carol" "bob" refl

pub carol_ne_alice : Apart "carol" "alice"
unfolding String-discrete
carol_ne_alice = apart "carol" "alice" refl
