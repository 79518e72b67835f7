-- ===== src/Web/Queries/Stale.antt =====
-- What no mutation makes stale.
use nexus_hub_contract.Prelude.{
  String, ◌≡◌, refl, ◌∙◌, Bool, true, false, ◌&&◌, ◌||◌, ◌==◌, none, some, List, [], ◌∷◌,
  String-discrete, arith, inl, inr, Bool-cases, if◌then◌else◌,
}
use nexus_hub_contract.Auth.{TokenPair}
use nexus_hub_contract.Web.Queries.{
  Part, QueryKey, Query, query_key, Mutation, on_success, on_error, balance, webhooks, transactions,
  escrows, disputes, escrow, dispute,
}
use nexus_hub_contract.Web.Queries.Cache.{QueryClient, Cached, Page, invalidate, succeed, fail}

-- A list with parameters, and every list of deliveries.
abbrev pub is_paged : Query → Bool
is_paged (Query.use_transactions (some p)) = true
is_paged (Query.use_escrows (some p)) = true
is_paged (Query.use_disputes (some p)) = true
is_paged (Query.use_webhook_deliveries id p) = true
is_paged _ = false

abbrev pub paged : List Cached → List Cached
paged [] = []
paged (q ∷ qs) = let rest = paged qs in if is_paged q.query then q ∷ rest else rest

module _ (client : QueryClient) where
  heads_differ :
      (a b : String) (f k : QueryKey)
      → (a == b) ≡ false
      → client.matches (Part.text a ∷ f) (Part.text b ∷ k) ≡ false
  heads_differ a b f k h = client.matches-text a b f k ∙ rw h refl

  -- A filter that matches no key of such a list.
  abbrev Misses : QueryKey → Type 0
  Misses key = (q : Query) → is_paged q ≡ true → client.matches key (query_key q) ≡ false

  row-Misses :
      (a : String) (f : QueryKey)
      → (a == "transactions") ≡ false
      → (a == "escrows") ≡ false
      → (a == "disputes") ≡ false
      → (a == "webhook-deliveries") ≡ false
      → Misses (Part.text a ∷ f)
  row-Misses a f t e d w (Query.use_transactions (some p)) h = heads_differ a _ f _ t
  row-Misses a f t e d w (Query.use_escrows (some p)) h = heads_differ a _ f _ e
  row-Misses a f t e d w (Query.use_disputes (some p)) h = heads_differ a _ f _ d
  row-Misses a f t e d w (Query.use_webhook_deliveries id p) h = heads_differ a _ f _ w
  row-Misses a f t e d w Query.use_balance h = cc
  row-Misses a f t e d w Query.use_webhooks h = cc
  row-Misses a f t e d w (Query.use_transactions none) h = cc
  row-Misses a f t e d w (Query.use_escrows none) h = cc
  row-Misses a f t e d w (Query.use_disputes none) h = cc
  row-Misses a f t e d w (Query.use_escrow id) h = cc
  row-Misses a f t e d w (Query.use_dispute id) h = cc

  and_false : (b c : Bool) → c ≡ false → (b && c) ≡ false
  and_false b c h = ground arith

  or_miss : (b c : Bool) → c ≡ false → (b || c) ≡ b
  or_miss b c h = ground arith

  list-Misses :
      (a : String)
      → (a == "webhook-deliveries") ≡ false
      → Misses (Part.text a ∷ Part.params none ∷ [])
  list-Misses a w (Query.use_transactions (some p)) h =
      client.matches-text a _ _ _ ∙ and_false _ _ (client.matches-object p _ _)
  list-Misses a w (Query.use_escrows (some p)) h =
      client.matches-text a _ _ _ ∙ and_false _ _ (client.matches-object p _ _)
  list-Misses a w (Query.use_disputes (some p)) h =
      client.matches-text a _ _ _ ∙ and_false _ _ (client.matches-object p _ _)
  list-Misses a w (Query.use_webhook_deliveries id p) h = heads_differ a _ _ _ w
  list-Misses a w Query.use_balance h = cc
  list-Misses a w Query.use_webhooks h = cc
  list-Misses a w (Query.use_transactions none) h = cc
  list-Misses a w (Query.use_escrows none) h = cc
  list-Misses a w (Query.use_disputes none) h = cc
  list-Misses a w (Query.use_escrow id) h = cc
  list-Misses a w (Query.use_dispute id) h = cc

  invalidate-paged :
      (key : QueryKey) (cache : List Cached)
      → Misses key
      → paged (invalidate client key cache) ≡ paged cache
  invalidate-paged key [] misses = refl
  invalidate-paged key (q ∷ qs) misses =
      let rest = invalidate-paged key qs misses in
      elim (Bool-cases (is_paged q.query)) [
        | inl is ↦ let same = or_miss q.is_stale _ (misses q.query is) in rw (is, same, rest) refl
        | inr isnt ↦ rw isnt rest
      ]

  once :
      {key : QueryKey} (cache : List Cached)
      → Misses key
      → paged (invalidate client key cache) ≡ paged cache
  once {key} cache misses = invalidate-paged key cache misses

  twice :
      {key key' : QueryKey} (cache : List Cached)
      → Misses key
      → Misses key'
      → paged (invalidate client key' (invalidate client key cache)) ≡ paged cache
  twice {key} {key'} cache misses misses' =
      invalidate-paged key' (invalidate client key cache) misses' ∙ once cache misses

  balance-Misses : Misses balance
  unfolding String-discrete
  balance-Misses = row-Misses _ _ refl refl refl refl

  webhooks-Misses : Misses webhooks
  unfolding String-discrete
  webhooks-Misses = row-Misses _ _ refl refl refl refl

  escrow-Misses : (id : String) → Misses (escrow id)
  unfolding String-discrete
  escrow-Misses id = row-Misses _ _ refl refl refl refl

  dispute-Misses : (id : String) → Misses (dispute id)
  unfolding String-discrete
  dispute-Misses id = row-Misses _ _ refl refl refl refl

  transactions-Misses : Misses (transactions none)
  unfolding String-discrete
  transactions-Misses = list-Misses _ refl

  escrows-Misses : Misses (escrows none)
  unfolding String-discrete
  escrows-Misses = list-Misses _ refl

  disputes-Misses : Misses (disputes none)
  unfolding String-discrete
  disputes-Misses = list-Misses _ refl

  succeed-paged :
      (m : Mutation) (answer : TokenPair) (s : Page)
      → paged (succeed client m answer s).cache ≡ paged s.cache
  unfolding on_success
  succeed-paged Mutation.use_login answer s = refl
  succeed-paged Mutation.use_register answer s = refl
  succeed-paged Mutation.use_topup answer s = twice s.cache balance-Misses transactions-Misses
  succeed-paged Mutation.use_withdrawal answer s = once s.cache balance-Misses
  succeed-paged Mutation.use_create_escrow answer s = twice s.cache escrows-Misses balance-Misses
  succeed-paged Mutation.use_open_dispute answer s = once s.cache disputes-Misses
  succeed-paged Mutation.use_register_webhook answer s = once s.cache webhooks-Misses
  succeed-paged (Mutation.use_release_escrow id) answer s =
      twice s.cache (escrow-Misses id) escrows-Misses
  succeed-paged (Mutation.use_resolve_dispute id) answer s =
      twice s.cache (dispute-Misses id) disputes-Misses
  succeed-paged (Mutation.use_delete_webhook id) answer s = once s.cache webhooks-Misses
  succeed-paged (Mutation.use_rotate_webhook_secret id) answer s = refl

  -- No mutation, whether it succeeds or fails, has a list with parameters, or a list of deliveries,
  -- fetched again: these keep their places in the cache, as fresh or as stale as they were.
  pub mutations_spare :
      (m : Mutation) (answer : TokenPair) (message : String) (s : Page)
      → (paged (succeed client m answer s).cache ≡ paged s.cache)
        × (paged (fail client m message s).cache ≡ paged s.cache)
  unfolding on_error
  mutations_spare m answer message s = (succeed-paged m answer s, refl)
