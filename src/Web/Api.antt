-- ===== src/Web/Api.antt =====
-- The calls of apps/web/src/services/api.ts, and the routes that the controllers of the API serve. A
-- path is the list of its segments below /api/v1.
use nexus_hub_contract.Prelude.{
  String, ◌≡◌, refl, Bool, true, false, ◌&&◌, ◌||◌, List, [], ◌∷◌, ◌==◌, contains, String-discrete,
}

pub data Method : Type 0 where
  get post patch delete : Method

-- The functions of authApi, balancesApi, topupsApi, escrowApi, withdrawalsApi, disputesApi and
-- webhooksApi, with what they put in the path.
pub data ApiCall : Type 0 where
  auth_register auth_login auth_refresh auth_logout : ApiCall
  my_balance transactions initiate_topup initiate_withdrawal : ApiCall
  create_escrow list_escrows : ApiCall
  escrow_by_id release_escrow refund_escrow : (id : String) → ApiCall
  open_dispute list_disputes : ApiCall
  dispute_by_id set_under_review resolve_dispute : (id : String) → ApiCall
  register_webhook list_webhooks : ApiCall
  update_webhook delete_webhook rotate_secret webhook_deliveries : (id : String) → ApiCall

unfoldable pub request_of : ApiCall → Method × List String
request_of ApiCall.auth_register = (Method.post, "auth" ∷ "register" ∷ [])
request_of ApiCall.auth_login = (Method.post, "auth" ∷ "login" ∷ [])
request_of ApiCall.auth_refresh = (Method.post, "auth" ∷ "refresh" ∷ [])
request_of ApiCall.auth_logout = (Method.post, "auth" ∷ "logout" ∷ [])
request_of ApiCall.my_balance = (Method.get, "balances" ∷ "me" ∷ [])
request_of ApiCall.transactions = (Method.get, "balances" ∷ "transactions" ∷ [])
request_of ApiCall.initiate_topup = (Method.post, "topups" ∷ [])
request_of ApiCall.initiate_withdrawal = (Method.post, "withdrawals" ∷ [])
request_of ApiCall.create_escrow = (Method.post, "escrow" ∷ [])
request_of ApiCall.list_escrows = (Method.get, "escrow" ∷ [])
request_of (ApiCall.escrow_by_id id) = (Method.get, "escrow" ∷ id ∷ [])
request_of (ApiCall.release_escrow id) = (Method.post, "escrow" ∷ id ∷ "release" ∷ [])
request_of (ApiCall.refund_escrow id) = (Method.post, "escrow" ∷ id ∷ "refund" ∷ [])
request_of ApiCall.open_dispute = (Method.post, "disputes" ∷ [])
request_of ApiCall.list_disputes = (Method.get, "disputes" ∷ [])
request_of (ApiCall.dispute_by_id id) = (Method.get, "disputes" ∷ id ∷ [])
request_of (ApiCall.set_under_review id) = (Method.patch, "disputes" ∷ id ∷ "review" ∷ [])
request_of (ApiCall.resolve_dispute id) = (Method.patch, "disputes" ∷ id ∷ "resolve" ∷ [])
request_of ApiCall.register_webhook = (Method.post, "webhooks" ∷ [])
request_of ApiCall.list_webhooks = (Method.get, "webhooks" ∷ [])
request_of (ApiCall.update_webhook id) = (Method.patch, "webhooks" ∷ id ∷ [])
request_of (ApiCall.delete_webhook id) = (Method.delete, "webhooks" ∷ id ∷ [])
request_of (ApiCall.rotate_secret id) = (Method.post, "webhooks" ∷ id ∷ "rotate-secret" ∷ [])
request_of (ApiCall.webhook_deliveries id) = (Method.get, "webhooks" ∷ id ∷ "deliveries" ∷ [])

-- `withIdempotency` is given to these.
unfoldable pub has_key : ApiCall → Bool
has_key ApiCall.initiate_topup = true
has_key ApiCall.initiate_withdrawal = true
has_key ApiCall.create_escrow = true
has_key _ = false

-- The routes of AuthController, BalancesController and EscrowController.
unfoldable pub serves_auth : Method → List String → Bool
serves_auth Method.post (a ∷ b ∷ []) =
    a == "auth" && contains ("register" ∷ "login" ∷ "refresh" ∷ "logout" ∷ []) b
serves_auth _ _ = false

unfoldable pub serves_balances : Method → List String → Bool
serves_balances Method.get (a ∷ b ∷ []) = a == "balances" && contains ("me" ∷ "transactions" ∷ []) b
serves_balances _ _ = false

unfoldable pub serves_escrow : Method → List String → Bool
serves_escrow Method.post (a ∷ []) = a == "escrow"
serves_escrow Method.get (a ∷ []) = a == "escrow"
serves_escrow Method.get (a ∷ id ∷ []) = a == "escrow"
serves_escrow Method.get (a ∷ id ∷ b ∷ []) = a == "escrow" && b == "milestones"
serves_escrow Method.post (a ∷ id ∷ b ∷ []) =
    a == "escrow"
    && contains
        ("release" ∷ "approve-release" ∷ "complete-milestone" ∷ "claim-expired" ∷ "refund"
          ∷ "transfer-admin" ∷ [])
        b
serves_escrow _ _ = false

abbrev pub serves : Method × List String → Bool
serves (m, path) = serves_auth m path || serves_balances m path || serves_escrow m path

-- The calls of sign-in, balances and escrows.
abbrev pub is_core : ApiCall → Bool
is_core ApiCall.auth_register = true
is_core ApiCall.auth_login = true
is_core ApiCall.auth_refresh = true
is_core ApiCall.auth_logout = true
is_core ApiCall.my_balance = true
is_core ApiCall.transactions = true
is_core ApiCall.create_escrow = true
is_core ApiCall.list_escrows = true
is_core (ApiCall.escrow_by_id id) = true
is_core (ApiCall.release_escrow id) = true
is_core (ApiCall.refund_escrow id) = true
is_core _ = false

-- A call of the web client has a route in the API exactly if it is one of sign-in, balances or
-- escrows: each call for top-ups, withdrawals, disputes or webhooks has none.
pub serves-request_of : (a : ApiCall) → serves (request_of a) ≡ is_core a
unfolding serves_auth serves_balances serves_escrow request_of String-discrete
serves-request_of ApiCall.auth_register = refl
serves-request_of ApiCall.auth_login = refl
serves-request_of ApiCall.auth_refresh = refl
serves-request_of ApiCall.auth_logout = refl
serves-request_of ApiCall.my_balance = refl
serves-request_of ApiCall.transactions = refl
serves-request_of ApiCall.initiate_topup = refl
serves-request_of ApiCall.initiate_withdrawal = refl
serves-request_of ApiCall.create_escrow = refl
serves-request_of ApiCall.list_escrows = refl
serves-request_of (ApiCall.escrow_by_id id) = refl
serves-request_of (ApiCall.release_escrow id) = refl
serves-request_of (ApiCall.refund_escrow id) = refl
serves-request_of ApiCall.open_dispute = refl
serves-request_of ApiCall.list_disputes = refl
serves-request_of (ApiCall.dispute_by_id id) = refl
serves-request_of (ApiCall.set_under_review id) = refl
serves-request_of (ApiCall.resolve_dispute id) = refl
serves-request_of ApiCall.register_webhook = refl
serves-request_of ApiCall.list_webhooks = refl
serves-request_of (ApiCall.update_webhook id) = refl
serves-request_of (ApiCall.delete_webhook id) = refl
serves-request_of (ApiCall.rotate_secret id) = refl
serves-request_of (ApiCall.webhook_deliveries id) = refl
