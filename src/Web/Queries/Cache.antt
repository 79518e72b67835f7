-- ===== src/Web/Queries/Cache.antt =====
-- The cache of @tanstack/react-query that the hooks share, and what a mutation does to it.
use nexus_hub_contract.Prelude.{
  String, ◌≡◌, Bool, true, false, ◌&&◌, ◌||◌, ◌==◌, none, some, List, [], ◌∷◌, map,
}
use nexus_hub_contract.Auth.{TokenPair}
use nexus_hub_contract.Web.Session
use nexus_hub_contract.Web.Session.{AuthState}
use nexus_hub_contract.Web.Queries.{
  Params, Part, QueryKey, Query, query_key, Mutation, Effect, on_success, on_error,
}

-- A filter matches the keys that start with it, where an object does not match `undefined`.
pub record QueryClient : Type 0 where
  pub matches : (filter key : QueryKey) → Bool
  pub matches-nil : (key : QueryKey) → matches [] key ≡ true
  pub matches-text :
      (a b : String) (filter key : QueryKey)
      → matches (Part.text a ∷ filter) (Part.text b ∷ key) ≡ (a == b && matches filter key)
  pub matches-undefined :
      (filter key : QueryKey)
      → matches (Part.params none ∷ filter) (Part.params none ∷ key) ≡ matches filter key
  pub matches-object :
      (p : Params) (filter key : QueryKey)
      → matches (Part.params none ∷ filter) (Part.params (some p) ∷ key) ≡ false

-- A query in the cache, and whether it is to be fetched again.
pub record Cached : Type 0 where
  pub query : Query
  pub is_stale : Bool

pub data Toast : Type 0 where
  success error : (message : String) → Toast

pub record Page : Type 0 where
  pub auth : AuthState
  pub toasts : List Toast
  pub cache : List Cached

module _ (client : QueryClient) where
  -- `qc.invalidateQueries({ queryKey })`
  abbrev pub invalidate : QueryKey → List Cached → List Cached
  invalidate key cache =
      map
        (λ (q : Cached). record q {
          is_stale = q.is_stale || client.matches key (query_key q.query);
        })
        cache

  abbrev pub run_effect : Effect → Page → Page
  run_effect (Effect.toast_success message) s = record s {
    toasts = Toast.success message ∷ s.toasts;
  }
  run_effect (Effect.toast_error message) s = record s { toasts = Toast.error message ∷ s.toasts }
  run_effect (Effect.invalidate_queries key) s = record s { cache = invalidate key s.cache }
  run_effect (Effect.set_tokens pair) s = record s {
    auth = Session.set_tokens pair.access_token pair.refresh_token s.auth;
  }

  abbrev pub run_effects : List Effect → Page → Page
  run_effects [] s = s
  run_effects (e ∷ es) s = run_effects es (run_effect e s)

  -- `mutate`, when its call has returned, or has thrown.
  abbrev pub succeed : Mutation → TokenPair → Page → Page
  succeed m answer s = run_effects (on_success m answer) s

  abbrev pub fail : Mutation → (message : String) → Page → Page
  fail m message s = run_effects (on_error m message) s
