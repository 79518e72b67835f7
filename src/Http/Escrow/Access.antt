-- ===== src/Http/Escrow/Access.antt =====
-- Who reaches which handler of EscrowController.
use nexus_hub_contract.Prelude.{
  ℕ, String, ◌≡◌, refl, ap, Bool, true, false, Option, none, some, arith, ◌∙◌, Bool-cases, inl, inr,
  Option-cases, if◌then◌else◌, or_default, [],
}
use nexus_hub_contract.Model.Enums.{UserRole}
use nexus_hub_contract.Model.Rows.{User}
use nexus_hub_contract.Prisma.Client.{Client}
use nexus_hub_contract.Prisma.World.{World, user_of}
use nexus_hub_contract.Prisma.Action.{ok, throws, forbidden, unauthorized}
use nexus_hub_contract.Auth.{AuthUser, is_suspended, validate_user, JwtPayload}
use nexus_hub_contract.Http.{reply, Nest, Request, Reply, success, failure, respond}
use nexus_hub_contract.Http.Status.{HasStatuses}
use nexus_hub_contract.Http.Guards.{denied, roles_guard, jwt_auth_guard}
use nexus_hub_contract.Http.Escrow.{Call, required_roles, status_of, handle, guarded, route_escrow}

-- The user that a request speaks for: stored, not suspended, and named by a token that is valid.
abbrev active : Option User → Option AuthUser
active none = none
active (some u) =
    if is_suspended u.status
    then none
    else some (record { id = u.id; email = u.email; role = u.role; status = u.status })

abbrev bearer : {c : Client} → World c → Option JwtPayload → Option AuthUser
bearer w none = none
bearer w (some payload) = active (user_of w payload.sub)

abbrev pub speaker : {c : Client} → Nest → Request → World c → Option AuthUser
speaker nest request w = bearer w (nest.authenticate request.authorization w.now)

-- What each role may do: payments by clients, milestones by freelancers, refunds and the change of
-- the contract's administrator by administrators, and all else by everyone.
abbrev pub may : UserRole → Call → Bool
may UserRole.client (Call.create _) = true
may _ (Call.create _) = false
may UserRole.client (Call.release _ _) = true
may _ (Call.release _ _) = false
may UserRole.freelancer (Call.complete_milestone _) = true
may _ (Call.complete_milestone _) = false
may UserRole.admin (Call.refund _ _) = true
may _ (Call.refund _ _) = false
may UserRole.admin (Call.transfer_admin _) = true
may _ (Call.transfer_admin _) = false
may _ _ = true

-- The status of a refusal, and none where the handler is reached.
abbrev pub refusal : Option AuthUser → Call → Option ℕ
refusal none route = some 401
refusal (some u) route = if may u.role route then none else some 403

abbrev pub status_code : {A : Type 0} → Reply A → ℕ
status_code (success s a t) = s
status_code (failure s t p m e) = s

roles_guard-may :
    (u : AuthUser) (role : UserRole) (route : Call)
    → u.role ≡ role
    → may role route ≡ true
    → roles_guard (required_roles route) (some u) ≡ ok tt
unfolding roles_guard required_roles
roles_guard-may u UserRole.client (Call.create dto) e h = rw e refl
roles_guard-may u UserRole.client (Call.release id feedback) e h = rw e refl
roles_guard-may u UserRole.freelancer (Call.complete_milestone id) e h = rw e refl
roles_guard-may u UserRole.admin (Call.refund id reason) e h = rw e refl
roles_guard-may u UserRole.admin (Call.transfer_admin id) e h = rw e refl
roles_guard-may u role route e h = ground arith

roles_guard-not-may :
    (u : AuthUser) (role : UserRole) (route : Call)
    → u.role ≡ role
    → may role route ≡ false
    → roles_guard (required_roles route) (some u)
      ≡ throws (forbidden (denied (or_default (required_roles route) []) u.role))
unfolding roles_guard required_roles
roles_guard-not-may u role route e h = ground arith

module _ (c : Client) (nest : Nest) where
  guarded-speaker :
      (request : Request) (w : World c) (u : AuthUser)
      → speaker nest request w ≡ some u
      → jwt_auth_guard c nest false request w ≡ (ok (some u), w)
  unfolding jwt_auth_guard validate_user
  guarded-speaker request w u h = ground arith

  guarded-nobody :
      (request : Request) (w : World c)
      → speaker nest request w ≡ none
      → (m : String) × (jwt_auth_guard c nest false request w ≡ (throws (unauthorized m), w))
  unfolding jwt_auth_guard validate_user
  guarded-nobody request w h = elim (Option-cases (nest.authenticate request.authorization w.now)) [
    | inl invalid ↦ ("Unauthorized", ground arith)
    | inr (payload, valid) ↦ ("Token invalid or user inactive", ground arith)
  ]

  guarded-may :
      (request : Request) (route : Call) (w : World c) (u : AuthUser)
      → speaker nest request w ≡ some u
      → may u.role route ≡ true
      → guarded c nest request route w ≡ handle c nest request u route w
  unfolding guarded
  guarded-may request route w u who allowed =
      let authenticated = guarded-speaker request w u who in
      let admitted = roles_guard-may u u.role route refl allowed in ground arith

  -- A request to a route of escrows reaches the handler of its route, and is answered by it, if it
  -- speaks for an active user in a role that may call the route.
  pub route_escrow_reached :
      (request : Request) (route : Call) (w : World c) (u : AuthUser)
      → speaker nest request w ≡ some u
      → may u.role route ≡ true
      → route_escrow c nest request route w
        ≡ respond nest request (status_of route) (handle c nest request u route) w
  unfolding route_escrow respond
  route_escrow_reached request route w u who allowed =
      ap (reply nest request (status_of route)) (guarded-may request route w u who allowed)

  route_escrow_nobody :
      (statuses : HasStatuses nest) (request : Request) (route : Call) (w : World c)
      → speaker nest request w ≡ none
      → let (reply, v) = route_escrow c nest request route w in (status_code reply ≡ 401) × (v ≡ w)
  unfolding route_escrow guarded respond
  route_escrow_nobody statuses request route w who =
      let (m, stopped) = guarded-nobody request w who in
      let status = statuses.unauthorized_status m in ground arith

  route_escrow_denied :
      (statuses : HasStatuses nest) (request : Request) (route : Call) (w : World c) (u : AuthUser)
      → speaker nest request w ≡ some u
      → may u.role route ≡ false
      → let (reply, v) = route_escrow c nest request route w in (status_code reply ≡ 403) × (v ≡ w)
  unfolding route_escrow guarded respond
  route_escrow_denied statuses request route w u who refused =
      let authenticated = guarded-speaker request w u who in
      let stopped = roles_guard-not-may u u.role route refl refused in
      let status =
        statuses.forbidden_status (denied (or_default (required_roles route) []) u.role) in
      ground arith

  refused-cases :
      (statuses : HasStatuses nest) (request : Request) (route : Call) (w : World c) (s : ℕ)
      (who : Option AuthUser)
      → speaker nest request w ≡ who
      → refusal who route ≡ some s
      → let (answer, v) = route_escrow c nest request route w in (status_code answer ≡ s) × (v ≡ w)
  refused-cases statuses request route w s none named h =
      let (status, same) = route_escrow_nobody statuses request route w named in
      let code : 401 ≡ s = cc in (status ∙ code, same)
  refused-cases statuses request route w s (some u) named h = elim (Bool-cases (may u.role route)) [
    | inl allowed ↦ absurd (ground arith)
    | inr denied ↦
        let (status, same) = route_escrow_denied statuses request route w u named denied in
        let code : 403 ≡ s = ground arith in (status ∙ code, same)
  ]

  -- A request to a route of escrows that speaks for no active user is answered with 401, and one of
  -- a user whose role may not call the route with 403; neither changes anything.
  pub route_escrow_refused :
      (statuses : HasStatuses nest) (request : Request) (route : Call) (w : World c) (s : ℕ)
      → refusal (speaker nest request w) route ≡ some s
      → let (answer, v) = route_escrow c nest request route w in (status_code answer ≡ s) × (v ≡ w)
  route_escrow_refused statuses request route w s h =
      refused-cases statuses request route w s (speaker nest request w) refl h
