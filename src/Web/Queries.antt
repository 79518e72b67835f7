-- ===== src/Web/Queries.antt =====
-- apps/web/src/hooks/use-nexus-queries.ts: the cached queries, and what each mutation does to them.
pub mod Cache
pub mod Stale
use nexus_hub_contract.Prelude.{
  ℕ, String, ◌≡◌, Bool, true, false, ◌&&◌, ◌||◌, ◌==◌, Option, none, some, is_some, truthy, List,
  [], ◌∷◌, map, if◌then◌else◌,
}
use nexus_hub_contract.Auth.{TokenPair}
use nexus_hub_contract.Web.Session.{AuthState}
use nexus_hub_contract.Web.Session
use nexus_hub_contract.Web.Api.{ApiCall}

-- `{ page?: number; limit?: number; type?: string }`
pub record Params : Type 0 where
  pub page : Option ℕ
  pub limit : Option ℕ
  pub type : Option String

-- A part of a query key: a text, or the parameters of a list, which may be `undefined`.
pub data Part : Type 0 where
  text : String → Part
  params : Option Params → Part

abbrev pub QueryKey : Type 0
QueryKey = List Part

-- `queryKeys`
abbrev pub balance : QueryKey
balance = Part.text "balance" ∷ []

abbrev pub transactions : Option Params → QueryKey
transactions p = Part.text "transactions" ∷ Part.params p ∷ []

abbrev pub escrows : Option Params → QueryKey
escrows p = Part.text "escrows" ∷ Part.params p ∷ []

abbrev pub escrow : String → QueryKey
escrow id = Part.text "escrow" ∷ Part.text id ∷ []

abbrev pub disputes : Option Params → QueryKey
disputes p = Part.text "disputes" ∷ Part.params p ∷ []

abbrev pub dispute : String → QueryKey
dispute id = Part.text "dispute" ∷ Part.text id ∷ []

abbrev pub webhooks : QueryKey
webhooks = Part.text "webhooks" ∷ []

abbrev pub webhook_deliveries : String → Option Params → QueryKey
webhook_deliveries id p = Part.text "webhook-deliveries" ∷ Part.text id ∷ Part.params p ∷ []

-- The hooks over useQuery.
pub data Query : Type 0 where
  use_balance use_webhooks : Query
  use_transactions use_escrows use_disputes : Option Params → Query
  use_escrow use_dispute : (id : String) → Query
  use_webhook_deliveries : (id : String) → Option Params → Query

-- `queryKey`
abbrev pub query_key : Query → QueryKey
query_key Query.use_balance = balance
query_key Query.use_webhooks = webhooks
query_key (Query.use_transactions p) = transactions p
query_key (Query.use_escrows p) = escrows p
query_key (Query.use_disputes p) = disputes p
query_key (Query.use_escrow id) = escrow id
query_key (Query.use_dispute id) = dispute id
query_key (Query.use_webhook_deliveries id p) = webhook_deliveries id p

-- `queryFn`
abbrev pub query_fn : Query → ApiCall
query_fn Query.use_balance = ApiCall.my_balance
query_fn Query.use_webhooks = ApiCall.list_webhooks
query_fn (Query.use_transactions p) = ApiCall.transactions
query_fn (Query.use_escrows p) = ApiCall.list_escrows
query_fn (Query.use_disputes p) = ApiCall.list_disputes
query_fn (Query.use_escrow id) = ApiCall.escrow_by_id id
query_fn (Query.use_dispute id) = ApiCall.dispute_by_id id
query_fn (Query.use_webhook_deliveries id p) = ApiCall.webhook_deliveries id

-- `enabled`: `!!id` where an id is given.
abbrev pub enabled : Query → Bool
enabled (Query.use_escrow id) = is_some (truthy (some id))
enabled (Query.use_dispute id) = is_some (truthy (some id))
enabled (Query.use_webhook_deliveries id p) = is_some (truthy (some id))
enabled _ = true

-- `refetchInterval`
abbrev pub refetch_interval : Query → Option ℕ
refetch_interval Query.use_balance = some 30_000
refetch_interval _ = none

-- The hooks over useMutation, with the id that a call of `mutate` names.
pub data Mutation : Type 0 where
  use_login use_register use_topup use_withdrawal use_create_escrow : Mutation
  use_open_dispute use_register_webhook : Mutation
  use_release_escrow use_resolve_dispute : (id : String) → Mutation
  use_delete_webhook use_rotate_webhook_secret : (id : String) → Mutation

-- `mutationFn`
abbrev pub mutation_fn : Mutation → ApiCall
mutation_fn Mutation.use_login = ApiCall.auth_login
mutation_fn Mutation.use_register = ApiCall.auth_register
mutation_fn Mutation.use_topup = ApiCall.initiate_topup
mutation_fn Mutation.use_withdrawal = ApiCall.initiate_withdrawal
mutation_fn Mutation.use_create_escrow = ApiCall.create_escrow
mutation_fn Mutation.use_open_dispute = ApiCall.open_dispute
mutation_fn Mutation.use_register_webhook = ApiCall.register_webhook
mutation_fn (Mutation.use_release_escrow id) = ApiCall.release_escrow id
mutation_fn (Mutation.use_resolve_dispute id) = ApiCall.resolve_dispute id
mutation_fn (Mutation.use_delete_webhook id) = ApiCall.delete_webhook id
mutation_fn (Mutation.use_rotate_webhook_secret id) = ApiCall.rotate_secret id

pub data Effect : Type 0 where
  toast_success toast_error : (message : String) → Effect
  invalidate_queries : QueryKey → Effect
  set_tokens : TokenPair → Effect

-- `onSuccess`, where the data of a sign-in is a pair of tokens.
unfoldable pub on_success : Mutation → TokenPair → List Effect
on_success Mutation.use_login data' = Effect.set_tokens data' ∷ []
on_success Mutation.use_register data' = Effect.set_tokens data' ∷ []
on_success Mutation.use_topup _ =
    Effect.toast_success "Top-up initiated. Your balance will update shortly."
    ∷ Effect.invalidate_queries balance
    ∷ Effect.invalidate_queries (transactions none)
    ∷ []
on_success Mutation.use_withdrawal _ =
    Effect.toast_success "Withdrawal initiated." ∷ Effect.invalidate_queries balance ∷ []
on_success Mutation.use_create_escrow _ =
    Effect.toast_success "Escrow created. Funds reserved."
    ∷ Effect.invalidate_queries (escrows none)
    ∷ Effect.invalidate_queries balance
    ∷ []
on_success Mutation.use_open_dispute _ =
    Effect.toast_success "Dispute opened. Our team will review within 24 hours."
    ∷ Effect.invalidate_queries (disputes none)
    ∷ []
on_success Mutation.use_register_webhook _ =
    Effect.toast_success "Webhook endpoint registered." ∷ Effect.invalidate_queries webhooks ∷ []
on_success (Mutation.use_release_escrow id) _ =
    Effect.toast_success "Funds released to freelancer."
    ∷ Effect.invalidate_queries (escrow id)
    ∷ Effect.invalidate_queries (escrows none)
    ∷ []
on_success (Mutation.use_resolve_dispute id) _ =
    Effect.toast_success "Dispute resolved."
    ∷ Effect.invalidate_queries (dispute id)
    ∷ Effect.invalidate_queries (disputes none)
    ∷ []
on_success (Mutation.use_delete_webhook id) _ =
    Effect.toast_success "Endpoint deleted." ∷ Effect.invalidate_queries webhooks ∷ []
on_success (Mutation.use_rotate_webhook_secret id) _ =
    Effect.toast_success "Secret rotated. Update your integration now." ∷ []

-- `onError`
unfoldable pub on_error : Mutation → (message : String) → List Effect
on_error _ message = Effect.toast_error message ∷ []
