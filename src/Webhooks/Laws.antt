-- ===== src/Webhooks/Laws.antt =====
-- Who changes an endpoint, what each change leaves, and the check of a signature.
use nexus_hub_contract.Prelude.{
  ℕ, String, ◌≡◌, ◌≢◌, Bool, true, none, some, arith, Option-cases, inl, inr, ◌↔◌,
}
use Prim.Native.String.{len}
use nexus_hub_contract.Model.Rows.{WebhookEndpoint}
use nexus_hub_contract.Prisma.Client.{Client, IsLawful}
use nexus_hub_contract.Prisma.World.{World, endpoint_of}
use nexus_hub_contract.Prisma.Action.{Exception, ok, throws, not_found, forbidden}
use nexus_hub_contract.Webhooks.{
  UpdateWebhookDto, updated, update_endpoint, delete_endpoint, rotate_secret, get_deliveries,
  verify_signature,
}

module _ (c : Client) (laws : IsLawful c) where
  -- An endpoint that another user owns, or that is not stored, cannot be changed, deleted, rotated
  -- or inspected: each call throws, and nothing changes.
  pub ownership :
      (user id : String) (dto : UpdateWebhookDto) (page limit : ℕ) (w : World c)
      → ((e : WebhookEndpoint) → endpoint_of w id ≡ some e → e.user_id ≢ user)
      → ((x : Exception) × (update_endpoint c user id dto w ≡ (throws x, w)))
        × ((x : Exception) × (delete_endpoint c user id w ≡ (throws x, w)))
        × ((x : Exception) × (rotate_secret c user id w ≡ (throws x, w)))
        × ((x : Exception) × (get_deliveries c user id page limit w ≡ (throws x, w)))
  unfolding update_endpoint delete_endpoint rotate_secret get_deliveries
  ownership user id dto page limit w foreign = elim (Option-cases (endpoint_of w id)) [
    | inl missing ↦
        let x = not_found "Webhook endpoint not found" in
        ((x, ground arith), (x, ground arith), (x, ground arith), (x, ground arith))
    | inr (e, stored) ↦
        let x = forbidden "Access denied" in
        let other = foreign e stored in
        ((x, ground arith), (x, ground arith), (x, ground arith), (x, ground arith))
  ]

  module _ (user id other : String) (w : World c) {e : WebhookEndpoint}
      (stored : endpoint_of w id ≡ some e) (own : e.user_id ≡ user) (apart : other ≢ id) where
    -- The owner's update keeps the secret and the owner, sets the columns that the request names,
    -- and touches no other endpoint.
    pub update_endpoint_lem :
        (dto : UpdateWebhookDto)
        → let (r, v) = update_endpoint c user id dto w in
          (r ≡ ok (updated dto e))
          × (endpoint_of v id ≡ some (updated dto e))
          × ((updated dto e).secret ≡ e.secret)
          × ((updated dto e).user_id ≡ user)
          × (endpoint_of v other ≡ endpoint_of w other)
    unfolding update_endpoint
    update_endpoint_lem dto = grind (arith, laws.find-update_self, laws.find-update_ne)

    -- A deleted endpoint is gone, and no other is.
    pub delete_endpoint_lem :
        let (r, v) = delete_endpoint c user id w in
        (r ≡ ok "Webhook endpoint deleted")
        × (endpoint_of v id ≡ none)
        × (endpoint_of v other ≡ endpoint_of w other)
    unfolding delete_endpoint
    delete_endpoint_lem = grind (arith, laws.find-delete_self, laws.find-delete_ne)

    -- The owner's rotation stores the new secret that it returns, and changes nothing else of any
    -- endpoint.
    pub rotate_secret_lem :
        let (r, v) = rotate_secret c user id w in
        (s : String) × (r ≡ ok (s, "Secret rotated. Update your integration."))
        × (endpoint_of v id ≡ some (record e { secret = s }))
        × (endpoint_of v other ≡ endpoint_of w other)
    unfolding rotate_secret
    rotate_secret_lem = (
      c.secret w.drawn,
      ground arith,
      grind (arith, laws.find-update_self),
      grind (arith, laws.find-update_ne),
    )

module _ (hmac : String → String → String) (payload signature secret : String) where
  -- A signature of the digest's length is accepted exactly if it is the digest.
  pub verify_signature_iff :
      len signature ≡ len (hmac secret payload)
      → (verify_signature hmac payload signature secret ≡ ok true)
        ↔ (signature ≡ hmac secret payload)
  unfolding verify_signature
  verify_signature_iff same = (λ accepted. ground arith, λ equal. ground arith)

  -- A signature of another length is not answered with `false`: the call throws.
  pub verify_signature_throws :
      len signature ≢ len (hmac secret payload)
      → (b : Bool) → verify_signature hmac payload signature secret ≢ ok b
  unfolding verify_signature
  verify_signature_throws other b = ground arith
