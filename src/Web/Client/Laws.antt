-- ===== src/Web/Client/Laws.antt =====
-- What a call of the client sends, and what it leaves in the store.
use nexus_hub_contract.Prelude.{
  ℕ, suc, ◌+◌, ◌≤◌, ◌≡◌, refl, String, true, false, Option, none, some, ◌∷◌, length, arith, truthy,
  inl, inr, Option-cases, Bool-cases, ◌<>◌, ◌&&◌, not, or_default,
}
use nexus_hub_contract.Web.Session.{set_tokens, clear_auth}
use nexus_hub_contract.Web.Client.{
  Config, Exchange, Outcome, Browser, Server, Failure, Body, resolved, rejected, value, failed,
  on_request, on_response, refresh_tokens, use_tokens, api_client, sign_out, refresh_request,
  new_tokens, is_unauthorized, message_of,
}

-- The call ends, and has sent at most `n` requests.
abbrev pub EndsWithin : ℕ → Browser → Option (Outcome × Browser) → Type 0
EndsWithin n b none = ⊥
EndsWithin n b (some (o, v)) = length v.sent ≤ length b.sent + n

EndsWithin-more :
    (n m : ℕ) (b v : Browser) (r : Option (Outcome × Browser))
    → length v.sent + n ≤ length b.sent + m
    → EndsWithin n v r
    → EndsWithin m b r
EndsWithin-more n m b v none h e = e
EndsWithin-more n m b v (some (o, w)) h e = omega arith

module _ (server : Server) where
  retried-response :
      (again : Config → Browser → Option (Outcome × Browser)) (config : Config) (x : Exchange)
      (b : Browser)
      → config.retried ≡ true
      → EndsWithin 0 b (on_response server again config x b)
  unfolding on_response
  retried-response again config (resolved body) b h = omega arith
  retried-response again config (rejected f) b h = elim (Bool-cases (is_unauthorized f.status)) [
    | inl yes401 ↦ rw (yes401, h) (omega arith)
    | inr other ↦ rw other (omega arith)
  ]

  retried-call :
      (f : ℕ) (config : Config) (b : Browser)
      → config.retried ≡ true
      → EndsWithin 1 b (api_client server (suc f) config b)
  unfolding api_client on_request
  retried-call f config b h =
      let config' = on_request b.auth config in
      let sent = record b { sent = config' ∷ b.sent } in
      EndsWithin-more 0 1 b sent _ (omega arith)
        (retried-response (api_client server f) config' (server (length b.sent) config') sent h)

  refreshed :
      (f : ℕ) (config : Config) (x : Failure) (tokens : Option (String × String)) (b : Browser)
      → EndsWithin 1 b (use_tokens server (api_client server (suc f)) config x tokens b)
  unfolding use_tokens
  refreshed f config x none b = omega arith
  refreshed f config x (some (access, refresh)) b = retried-call f _ _ refl

  refreshing :
      (f : ℕ) (config : Config) (x : Failure) (token : Option String) (b : Browser)
      → EndsWithin 2 b (refresh_tokens server (api_client server (suc f)) config x token b)
  unfolding refresh_tokens sign_out
  refreshing f config x none b = omega arith
  refreshing f config x (some token) b =
      let request = refresh_request token in
      let sent = record b { sent = request ∷ b.sent } in
      EndsWithin-more 1 2 b sent _ (omega arith)
        (refreshed f config x (new_tokens (server (length b.sent) request)) sent)

  responded :
      (f : ℕ) (config : Config) (x : Exchange) (b : Browser)
      → EndsWithin 2 b (on_response server (api_client server (suc f)) config x b)
  unfolding on_response
  responded f config (resolved body) b = omega arith
  responded f config (rejected x) b =
      elim (Bool-cases (is_unauthorized x.status && not config.retried)) [
        | inl refresh ↦ rw refresh (refreshing f config x (truthy b.auth.refresh_token) b)
        | inr other ↦ rw other (omega arith)
      ]

  -- Every call of the web client ends, whatever the server answers, with no more than one call
  -- inside it, and has sent at most three requests: its own, a refresh, and its own once more.
  pub api_client-EndsWithin :
      (f : ℕ) (config : Config) (b : Browser)
      → EndsWithin 3 b (api_client server (suc (suc f)) config b)
  unfolding api_client
  api_client-EndsWithin f config b =
      let config' = on_request b.auth config in
      let sent = record b { sent = config' ∷ b.sent } in
      EndsWithin-more 2 3 b sent _ (omega arith)
        (responded f config' (server (length b.sent) config') sent)

  module _ (config : Config) (b : Browser) (first : Failure) where
    -- A first request that is answered with 401, while a refresh token is stored that the server
    -- exchanges for a pair with an access token that is not empty: the pair is stored, and the
    -- request is sent once more with its access token; a value that answers it is the result of the
    -- call.
    pub api_client_renews :
        (old access refresh : String) (renewed final : Body)
        → let config' = on_request b.auth config in
          let asked = refresh_request old in
          let again = record config' {
            authorization = some ("Bearer " <> access);
            retried = true;
          } in
          config.retried ≡ false
          → server (length b.sent) config' ≡ rejected first
          → first.status ≡ some 401
          → truthy b.auth.refresh_token ≡ some old
          → truthy (some access) ≡ some access
          → server (suc (length b.sent)) asked ≡ resolved renewed
          → renewed.tokens ≡ some (access, refresh)
          → server (suc (suc (length b.sent))) again ≡ resolved final
          → api_client server 2 config b
            ≡ some (
              value (or_default final.wrapped final.plain),
              record b {
                auth = set_tokens access refresh b.auth;
                sent = again ∷ asked ∷ config' ∷ b.sent;
              },
            )
    unfolding api_client set_tokens
    api_client_renews old access refresh renewed final fresh refused status stored nonempty answer
          pair last =
        ground arith

    -- A first request that is answered with 401, where no refresh token is stored or the server
    -- gives no pair for it: the user is signed out and sent to the login page, and the call fails
    -- with the message of the first answer.
    pub api_client_signs_out :
        config.retried ≡ false
        → server (length b.sent) (on_request b.auth config) ≡ rejected first
        → first.status ≡ some 401
        → ((old : String)
            → truthy b.auth.refresh_token ≡ some old
            → new_tokens (server (suc (length b.sent)) (refresh_request old)) ≡ none)
        → (v : Browser) × (api_client server 2 config b ≡ some (failed (message_of first), v))
          × (v.auth ≡ clear_auth b.auth)
          × (v.location ≡ "/auth/login")
    unfolding api_client sign_out
    api_client_signs_out fresh refused status none_given =
        elim (Option-cases (truthy b.auth.refresh_token)) [
          | inl gone ↦ (
            sign_out (record b { sent = on_request b.auth config ∷ b.sent }),
            ground arith,
            ground arith,
            ground arith,
          )
          | inr (old, stored) ↦
              let refused_too = none_given old stored in
              (
                sign_out
                    (record b { sent = refresh_request old ∷ on_request b.auth config ∷ b.sent }),
                ground arith,
                ground arith,
                ground arith,
              )
        ]
