-- ===== src/Escrow/Queries/Laws.antt =====
-- Who sees an escrow, and what a rotation of the secrets leaves alone.
use nexus_hub_contract.Prelude.{
  ℕ, String, ◌≡◌, ◌⊎◌, inl, inr, refl, true, false, some, List, [], ◌∷◌, All, All-map, ◌==◌,
  String-discrete, Option-cases, Bool-cases, is_some, truthy, arith,
}
use nexus_hub_contract.Prelude.Int.{pos, ◌+ℤ◌, sub_ℕ}
use nexus_hub_contract.Model.Rows.{Escrow, Dispute, WebhookEndpoint}
use nexus_hub_contract.Prisma.Client.{Client, IsLawful}
use nexus_hub_contract.Prisma.World.{World, escrow_of, user_of, endpoint_of}
use nexus_hub_contract.Prisma.Action.{ok, throws, not_found, Result-cases}
use nexus_hub_contract.Paging.{Page, to_page, rows_of}
use nexus_hub_contract.Paging.Cover.{rows-All}
use nexus_hub_contract.Escrow.Queries.{
  EscrowDetails, Milestones, details, is_own, listed, get_escrow, get_milestones, list_escrows,
  rotate_one, rotate_all, is_affected, transfer_admin,
}

not_client : ("FREELANCER" == "CLIENT") ≡ false
unfolding String-discrete
not_client = refl

module _ (c : Client) (laws : IsLawful c) where
  -- Whoever gets the details of an escrow, or its milestones, is its client or its freelancer and
  -- sees a stored row; for others, and for an id that is not stored, both reads throw; neither
  -- changes anything.
  pub reads-private :
      (user id : String) (w : World c)
      → ((k : String) × (e : Escrow) × (escrow_of w k ≡ some e)
          × (e.id ≡ id)
          × ((e.client_id ≡ user) ⊎ (e.freelancer_id ≡ user))
          × ((d : EscrowDetails) × (get_escrow c user id w ≡ (ok d, w))
              × (d.id ≡ id)
              × (d.status ≡ e.status)
              × (d.amount ≡ e.amount))
          × ((m : Milestones) × (get_milestones c user id w ≡ (ok m, w))
              × (m.remaining +ℤ pos m.completed ≡ pos m.total)))
        ⊎ ((get_escrow c user id w ≡ (throws (not_found "Escrow not found"), w))
            × (get_milestones c user id w ≡ (throws (not_found "Escrow not found"), w)))
  unfolding get_escrow get_milestones ◌+ℤ◌
  reads-private user id w =
      elim (Option-cases (c.find_first Escrow (is_own user id) w.db.escrows)) [
        | inl missing ↦ inr (rw missing refl, rw missing refl)
        | inr (e, found) ↦
            let (k, stored) = laws.find_first-stored Escrow (is_own user id) e w.db.escrows found in
            let own = laws.find_first-passes Escrow (is_own user id) e w.db.escrows found in
            let same : e.id ≡ id = ground arith in
            let party : (e.client_id ≡ user) ⊎ (e.freelancer_id ≡ user) =
              elim (Bool-cases (e.client_id == user)) [
                | inl yes_client ↦ inl (ground arith)
                | inr no_client ↦ inr (ground arith)
              ] in
            inl (
              k,
              e,
              stored,
              same,
              party,
              (
                details e (user_of w e.client_id) (user_of w e.freelancer_id)
                    (c.find_first Dispute (λ d. d.escrow_id == e.id) w.db.disputes),
                rw found refl,
                same,
                refl,
                refl,
              ),
              (
                record {
                  escrow_id = e.id;
                  total = e.milestones_total;
                  completed = e.milestones_completed;
                  remaining = sub_ℕ e.milestones_total e.milestones_completed;
                  status = e.status;
                },
                rw found refl,
                ground arith,
              ),
            )
      ]

  -- A page of the escrows of a client holds escrows of that client alone, one of a freelancer those
  -- of that freelancer; each total counts all of them, and neither read changes anything.
  pub list_escrows_own :
      (user : String) (page limit : ℕ) (w : World c)
      → ((p : Page Escrow) × (list_escrows c user "CLIENT" page limit w ≡ (ok p, w))
          × All (λ e. e.client_id ≡ user) p.rows
          × (p.total ≡ c.count Escrow (listed user "CLIENT") w.db.escrows))
        × ((p : Page Escrow) × (list_escrows c user "FREELANCER" page limit w ≡ (ok p, w))
            × All (λ e. e.freelancer_id ≡ user) p.rows
            × (p.total ≡ c.count Escrow (listed user "FREELANCER") w.db.escrows))
  unfolding list_escrows to_page
  list_escrows_own user page limit w =
      let rows : String → List Escrow =
        λ role. rows_of (c.find_many Escrow (listed user role) w.db.escrows) page limit in
      let total : String → ℕ = λ role. c.count Escrow (listed user role) w.db.escrows in
      let passed : (role : String) → All (λ e. listed user role e ≡ true) (rows role) =
        λ role. rows-All _ _ page limit (laws.find_many-All Escrow (listed user role) _) in
      let clients =
        All-map {Q = λ e. e.client_id ≡ user} (λ e h. ground arith) (rows "CLIENT")
          (passed "CLIENT") in
      let freelancers =
        All-map {Q = λ e. e.freelancer_id ≡ user} (λ e h. ground (arith, not_client))
          (rows "FREELANCER") (passed "FREELANCER") in
      (
        (
          to_page (c.find_many Escrow (listed user "CLIENT") w.db.escrows) (total "CLIENT") page
              limit,
          refl,
          clients,
          refl,
        ),
        (
          to_page (c.find_many Escrow (listed user "FREELANCER") w.db.escrows) (total "FREELANCER")
              page limit,
          refl,
          freelancers,
          refl,
        ),
      )

  -- The part of the world that a rotation leaves alone: all but the endpoints, the audit log and
  -- the count of what was drawn.
  abbrev pub Keeps : World c → World c → Type 0
  Keeps w v =
      (v.db.escrows ≡ w.db.escrows)
      × (v.db.balances ≡ w.db.balances)
      × (v.db.transactions ≡ w.db.transactions)
      × (v.escrow_queue ≡ w.escrow_queue)
      × (v.webhook_queue ≡ w.webhook_queue)

  -- An endpoint keeps all but its secret.
  abbrev pub KeepsEndpoint : World c → World c → String → Type 0
  KeepsEndpoint w v k =
      (e : WebhookEndpoint)
      → endpoint_of w k ≡ some e
      → (secret : String) × (endpoint_of v k ≡ some (record e { secret = secret }))

  rotate_one-Keeps : (ep : WebhookEndpoint) (w : World c) → Keeps w (rotate_one c ep w).1
  unfolding rotate_one
  rotate_one-Keeps ep w = (grind arith, grind arith, grind arith, grind arith, grind arith)

  rotate_one-KeepsEndpoint :
      (ep : WebhookEndpoint) (w : World c) (k : String) → KeepsEndpoint w (rotate_one c ep w).1 k
  unfolding rotate_one
  rotate_one-KeepsEndpoint ep w k e h = elim (Option-cases (endpoint_of w ep.id)) [
    | inl missing ↦ (e.secret, ground arith)
    | inr (f, stored) ↦ elim (String-discrete k ep.id) [
      | yes same ↦ (c.secret w.drawn, grind (arith, laws.find-update_self))
      | no apart ↦ (e.secret, grind (arith, laws.find-update_ne))
    ]
  ]

  rotate_all-Keeps : (eps : List WebhookEndpoint) (w : World c) → Keeps w (rotate_all c eps w).1
  unfolding rotate_all
  rotate_all-Keeps [] w = (refl, refl, refl, refl, refl)
  rotate_all-Keeps (ep ∷ eps) w =
      let v = (rotate_one c ep w).1 in
      let (a, b, d, e, f) = rotate_one-Keeps ep w in
      let (g, h, i, j, k) = rotate_all-Keeps eps v in
      (grind arith, grind arith, grind arith, grind arith, grind arith)

  rotate_all-KeepsEndpoint :
      (eps : List WebhookEndpoint) (w : World c) (k : String)
      → KeepsEndpoint w (rotate_all c eps w).1 k
  unfolding rotate_all
  rotate_all-KeepsEndpoint [] w k e h = (e.secret, h)
  rotate_all-KeepsEndpoint (ep ∷ eps) w k e h =
      let v = (rotate_one c ep w).1 in
      let (s, first) = rotate_one-KeepsEndpoint ep w k e h in
      let (t, rest) = rotate_all-KeepsEndpoint eps v k (record e { secret = s }) first in
      elim (Result-cases (rotate_one c ep w).0) [
        | inl (done, ended) ↦ (t, grind arith)
        | inr (x, ended) ↦ (s, grind arith)
      ]

  -- However transferAdmin ends, it moves no money and changes no escrow and no queue, and a stored
  -- endpoint keeps all but its secret.
  pub transfer_admin-Keeps :
      (admin id k : String) (w : World c) {ep : WebhookEndpoint}
      → endpoint_of w k ≡ some ep
      → Keeps w (transfer_admin c admin id w).1
        × ((secret : String) × (endpoint_of (transfer_admin c admin id w).1 k
              ≡ some (record ep { secret = secret })))
  unfolding transfer_admin
  transfer_admin-Keeps admin id k w {ep} h = elim (Option-cases (escrow_of w id)) [
    | inl missing ↦ (
      (grind arith, grind arith, grind arith, grind arith, grind arith),
      (ep.secret, grind arith),
    )
    | inr (e, stored) ↦
        let eps = c.find_many WebhookEndpoint (is_affected e) w.db.webhook_endpoints in
        let (a, b, d, f, g) = rotate_all-Keeps eps w in
        let (s, kept) = rotate_all-KeepsEndpoint eps w k ep h in
        (
          (grind arith, grind arith, grind arith, grind arith, grind arith),
          elim (Bool-cases (is_some (truthy e.stellar_contract_id))) [
            | inl contracted ↦ (s, grind arith)
            | inr bare ↦ (ep.secret, grind arith)
          ],
        )
  ]
