-- ===== src/Tests/HttpTests.antt =====
-- The routes at concrete inputs.
use nexus_hub_contract.Prelude.{
  ℕ, ◌≡◌, refl, true, Option, none, some, String, ◌∷◌, String-discrete,
}
use nexus_hub_contract.Model.Enums.{UserRole, UserStatus, EscrowStatus}
use nexus_hub_contract.Model.Jobs.{EscrowJob}
use nexus_hub_contract.Prisma.Action.{
  Exception, not_found, bad_request, forbidden, conflict, unauthorized,
}
use nexus_hub_contract.Prisma.Memory.{memory, memory-IsLawful}
use nexus_hub_contract.Auth.{AuthUser, JwtPayload}
use nexus_hub_contract.Escrow.Create.{escrow_job_options}
use nexus_hub_contract.Http.{Nest, Request, respond}
use nexus_hub_contract.Http.Status.{HasStatuses}
use nexus_hub_contract.Http.Auth.{RegisterBody, route_register}
use nexus_hub_contract.Http.Escrow.{Call, handle, route_escrow}
use nexus_hub_contract.Http.Escrow.Access.{status_code, route_escrow_reached, route_escrow_refused}
use nexus_hub_contract.Http.Escalation.{registered_admin_refunds}
use nexus_hub_contract.Tests.Fixtures.{job, funded_world}
use nexus_hub_contract.Tests.UserTests.{plain}

abbrev http_status : Exception → Option ℕ
http_status (not_found m) = some 404
http_status (bad_request m) = some 400
http_status (forbidden m) = some 403
http_status (conflict m) = some 409
http_status (unauthorized m) = some 401
http_status x = none

abbrev text_of : Exception → String
text_of (not_found m) = m
text_of (bad_request m) = m
text_of (forbidden m) = m
text_of (conflict m) = m
text_of (unauthorized m) = m
text_of x = ""

-- The header names the user.
abbrev payload_of : Option String → Option JwtPayload
payload_of none = none
payload_of (some user) = some (record { sub = user; email = ""; role = UserRole.client })

abbrev nest : Nest
nest = record {
  get_status = http_status;
  get_message = text_of;
  authenticate = λ header now. payload_of header;
  is_uuid = λ id. true;
  is_email = λ email. true;
  uuid_message = "uuid";
  validation_message = "invalid";
}

nest-HasStatuses : HasStatuses nest
nest-HasStatuses = record {
  not_found_status = λ m. refl;
  bad_request_status = λ m. refl;
  forbidden_status = λ m. refl;
  conflict_status = λ m. refl;
  unauthorized_status = λ m. refl;
  error_status = λ m. refl;
  record_missing_status = refl;
  unique_violation_status = refl;
}

abbrev by : Option String → Request
by user = record {
  url = "/api/v1/escrow";
  method = "POST";
  authorization = user;
  idempotency_key = none;
}

abbrev alice_user : AuthUser
alice_user = record {
  id = "alice";
  email = "alice@x.io";
  role = UserRole.client;
  status = UserStatus.active;
}

route_escrow_reached_example :
    route_escrow memory nest (by (some "alice")) (Call.release "e1" none) funded_world
    ≡ respond nest
        (by (some "alice"))
        201
        (handle memory nest (by (some "alice")) alice_user (Call.release "e1" none))
        funded_world
unfolding String-discrete
route_escrow_reached_example =
    route_escrow_reached memory nest (by (some "alice")) (Call.release "e1" none) funded_world
      alice_user refl refl

-- A client asks for a refund.
route_escrow_refused_example :
    (status_code
        (route_escrow memory nest (by (some "alice")) (Call.refund "e1" "too late") funded_world).0
      ≡ 403)
    × ((route_escrow memory nest (by (some "alice")) (Call.refund "e1" "too late") funded_world).1
        ≡ funded_world)
unfolding String-discrete
route_escrow_refused_example =
    route_escrow_refused memory nest nest-HasStatuses (by (some "alice"))
      (Call.refund "e1" "too late") funded_world 403 refl

abbrev mallory : RegisterBody
mallory = record {
  email = "mal@x.io";
  password = "password";
  first_name = "Mal";
  last_name = "M";
  role = some UserRole.admin;
}

registered_admin_refunds_example :
    let v = (route_register memory nest plain (by none) mallory funded_world).1 in
    let (answer, u) =
      route_escrow memory nest (by (some (memory.uuid 2))) (Call.refund "e1" "because I can") v in
    (status_code answer ≡ 201)
    × (u.escrow_queue
        ≡ (EscrowJob.refund_escrow "e1" (memory.uuid 2) "because I can", escrow_job_options)
          ∷ v.escrow_queue)
unfolding String-discrete
registered_admin_refunds_example =
    registered_admin_refunds memory memory-IsLawful nest plain (by none) (by (some (memory.uuid 2)))
      mallory (record { sub = memory.uuid 2; email = ""; role = UserRole.client }) "e1"
      "because I can" funded_world (job EscrowStatus.funded) refl refl refl refl refl refl refl refl
      refl refl refl refl refl
