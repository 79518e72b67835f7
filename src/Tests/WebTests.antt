-- ===== src/Tests/WebTests.antt =====
-- The web client at concrete inputs.
use nexus_hub_contract.Prelude.{
  zero, suc, Bool, ◌&&◌, ◌==◌, ◌≡◌, refl, true, false, none, some, [], ◌∷◌, String-discrete,
}
use nexus_hub_contract.Web.Session.{set_tokens}
use nexus_hub_contract.Web.Client.{
  Config, Body, Failure, resolved, rejected, value, Browser, Server, api_client, on_request,
  refresh_request,
}
use nexus_hub_contract.Web.Client.Laws.{EndsWithin, api_client-EndsWithin, api_client_renews}
use nexus_hub_contract.Web.Api.{ApiCall, request_of, serves, serves-request_of}
use nexus_hub_contract.Web.Queries.{Part, QueryKey, Query, Mutation}
use nexus_hub_contract.Web.Queries.Cache.{QueryClient, Page, succeed, fail}
use nexus_hub_contract.Web.Queries.Stale.{paged, mutations_spare}
use nexus_hub_contract.Auth.{TokenPair}

abbrev get_balance : Config
get_balance = record { url = "/balances/me"; body = ""; authorization = none; retried = false }

abbrev page : Browser
page = record {
  auth = record { user = none; access_token = some "old"; refresh_token = some "r1" };
  location = "/dashboard";
  sent = [];
}

abbrev expired : Failure
expired = record { status = some 401; reason = some "Unauthorized"; text = none }

abbrev pair : Body
pair = record { wrapped = none; plain = ""; tokens = some ("new", "r2") }

abbrev rows : Body
rows = record { wrapped = some "rows"; plain = ""; tokens = none }

-- A server that refuses the old token, renews it, and then answers.
abbrev renewing : Server
renewing zero config = rejected expired
renewing (suc zero) config = resolved pair
renewing (suc (suc n)) config = resolved rows

-- A server that refuses everything.
abbrev refusing : Server
refusing n config = rejected expired

api_client-EndsWithin_example : EndsWithin 3 page (api_client refusing 2 get_balance page)
api_client-EndsWithin_example = api_client-EndsWithin refusing 0 get_balance page

api_client_renews_example :
    let first = record get_balance { authorization = some "Bearer old" } in
    let again = record get_balance { authorization = some "Bearer new"; retried = true } in
    api_client renewing 2 get_balance page
    ≡ some (
      value "rows",
      record page {
        auth = set_tokens "new" "r2" page.auth;
        sent = again ∷ refresh_request "r1" ∷ first ∷ [];
      },
    )
unfolding String-discrete on_request
api_client_renews_example =
    api_client_renews renewing get_balance page expired "r1" "new" "r2" pair rows refl refl refl
      refl refl refl refl refl

serves-request_of_example : serves (request_of (ApiCall.open_dispute)) ≡ false
serves-request_of_example = serves-request_of ApiCall.open_dispute

-- A cache that compares keys part by part.
abbrev matches_part : Part → Part → Bool
matches_part (Part.text a) (Part.text b) = a == b
matches_part (Part.params none) (Part.params none) = true
matches_part _ _ = false

abbrev starts_with : (filter key : QueryKey) → Bool
starts_with [] key = true
starts_with (p ∷ ps) [] = false
starts_with (p ∷ ps) (k ∷ ks) = matches_part p k && starts_with ps ks

abbrev client : QueryClient
client = record {
  matches = starts_with;
  matches-nil = λ key. refl;
  matches-text = λ a b filter key. refl;
  matches-undefined = λ filter key. refl;
  matches-object = λ p filter key. refl;
}

abbrev first_page : Query
first_page = Query.use_escrows (some (record { page = some 1; limit = some 10; type = none }))

abbrev browsing : Page
browsing = record {
  auth = page.auth;
  toasts = [];
  cache =
      record { query = first_page; is_stale = false }
      ∷ record { query = Query.use_escrows none; is_stale = false }
      ∷ [];
}

abbrev no_tokens : TokenPair
no_tokens = record { access_token = ""; refresh_token = "" }

mutations_spare_example :
    (paged (succeed client Mutation.use_create_escrow no_tokens browsing).cache
      ≡ record { query = first_page; is_stale = false } ∷ [])
    × (paged (fail client Mutation.use_create_escrow "refused" browsing).cache
        ≡ record { query = first_page; is_stale = false } ∷ [])
mutations_spare_example =
    mutations_spare client Mutation.use_create_escrow no_tokens "refused" browsing
