-- ===== src/Web/Client.antt =====
-- apiClient of apps/web/src/lib/api-client.ts: its two interceptors. Axios, the server and the network
-- are one parameter, which answers the n-th request that the page sends.
pub mod Laws
use nexus_hub_contract.Prelude.{
  ℕ, suc, zero, String, ◌<>◌, Bool, true, false, not, ◌&&◌, Option, none, some, List, [], ◌∷◌,
  length, nat_eq, or_default, truthy, if◌then◌else◌,
}
use nexus_hub_contract.Web.Session.{AuthState, set_tokens, clear_auth}

-- A request's config, with the mark `_retry` that the client leaves on it.
pub record Config : Type 0 where
  pub url : String
  pub body : String
  pub authorization : Option String
  pub retried : Bool

-- What the client reads of a response that came with a status of 2xx: `data?.data`, or else `data`,
-- and the tokens in it, if it holds a pair.
pub record Body : Type 0 where
  pub wrapped : Option String
  pub plain : String
  pub tokens : Option (String × String)

-- `error.response?.status`, the (first) message of its data, and `error.message`.
pub record Failure : Type 0 where
  pub status : Option ℕ
  pub reason : Option String
  pub text : Option String

pub data Exchange : Type 0 where
  resolved : Body → Exchange
  rejected : Failure → Exchange

-- What a call of the client gives: a value, or an error with a message.
pub data Outcome : Type 0 where
  value : String → Outcome
  failed : (message : String) → Outcome

-- The page: the store, `window.location.href`, and what was sent, the newest first.
pub record Browser : Type 0 where
  pub auth : AuthState
  pub location : String
  pub sent : List Config

abbrev pub Server : Type 0
Server = ℕ → Config → Exchange

abbrev pub transmit : Server → Config → Browser → Exchange × Browser
transmit server config b = (server (length b.sent) config, record b { sent = config ∷ b.sent })

-- The interceptor of requests.
abbrev pub bearer : Option String → Option String → Option String
bearer none old = old
bearer (some token) old = some ("Bearer " <> token)

unfoldable pub on_request : AuthState → Config → Config
on_request auth config = record config {
  authorization = bearer (truthy auth.access_token) config.authorization;
}

abbrev pub is_unauthorized : Option ℕ → Bool
is_unauthorized none = false
is_unauthorized (some status) = nat_eq status 401

-- `reject(new Error(message))`
abbrev pub message_of : Failure → String
message_of f = or_default f.reason (or_default f.text "Something went wrong")

-- The `catch`.
unfoldable pub sign_out : Browser → Browser
unfolding clear_auth
sign_out b = record b { auth = clear_auth b.auth; location = "/auth/login" }

-- `axios.post(…/auth/refresh, { refreshToken })`
abbrev pub refresh_request : String → Config
refresh_request token = record {
  url = "/api/v1/auth/refresh";
  body = token;
  authorization = none;
  retried = false;
}

abbrev pub new_tokens : Exchange → Option (String × String)
new_tokens (resolved body) = body.tokens
new_tokens (rejected f) = none

module _ (server : Server) where
  -- The end of the `try`, with `apiClient(original)` as `again`.
  unfoldable pub use_tokens :
      (again : Config → Browser → Option (Outcome × Browser))
      → Config
      → Failure
      → Option (String × String)
      → Browser
      → Option (Outcome × Browser)
  unfolding sign_out set_tokens
  use_tokens again config f none b = some (failed (message_of f), sign_out b)
  use_tokens again config f (some (access, refresh)) b =
      again (record config { authorization = some ("Bearer " <> access); retried = true })
        (record b { auth = set_tokens access refresh b.auth })

  -- The `try`.
  unfoldable pub refresh_tokens :
      (again : Config → Browser → Option (Outcome × Browser))
      → Config
      → Failure
      → Option String
      → Browser
      → Option (Outcome × Browser)
  unfolding use_tokens
  refresh_tokens again config f none b = some (failed (message_of f), sign_out b)
  refresh_tokens again config f (some token) b =
      let (exchange, b') = transmit server (refresh_request token) b in
      use_tokens again config f (new_tokens exchange) b'

  -- The interceptor of responses.
  unfoldable pub on_response :
      (again : Config → Browser → Option (Outcome × Browser))
      → Config
      → Exchange
      → Browser
      → Option (Outcome × Browser)
  unfolding refresh_tokens
  on_response again config (resolved body) b = some (value (or_default body.wrapped body.plain), b)
  on_response again config (rejected f) b =
      if is_unauthorized f.status && not config.retried
      then refresh_tokens again config f (truthy b.auth.refresh_token) b
      else some (failed (message_of f), b)

  -- A call; `none` means that the calls were nested deeper than the fuel.
  unfoldable pub api_client : ℕ → Config → Browser → Option (Outcome × Browser)
  unfolding on_request on_response
  api_client zero config b = none
  api_client (suc fuel) config b =
      let config' = on_request b.auth config in
      let (exchange, b') = transmit server config' b in
      on_response (api_client fuel) config' exchange b'
