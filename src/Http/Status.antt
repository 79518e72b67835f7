-- ===== src/Http/Status.antt =====
-- What a client sees of an exception.
use nexus_hub_contract.Prelude.{ℕ, String, ◌≡◌, refl, none, some, ap}
use nexus_hub_contract.Prisma.Client.{Client}
use nexus_hub_contract.Prisma.World.{World}
use nexus_hub_contract.Prisma.Action.{
  Action, Result, ok, throws, Exception, not_found, bad_request, forbidden, conflict, unauthorized,
  error, record_missing, unique_violation,
}
use nexus_hub_contract.Http.{
  Nest, Request, Reply, success, failure, respond, reply, catch_exception, intercept,
}

-- The statuses of the exceptions of @nestjs/common; the other errors are no HttpException.
pub record HasStatuses (nest : Nest) : Type 0 where
  pub not_found_status : (m : String) → nest.get_status (not_found m) ≡ some 404
  pub bad_request_status : (m : String) → nest.get_status (bad_request m) ≡ some 400
  pub forbidden_status : (m : String) → nest.get_status (forbidden m) ≡ some 403
  pub conflict_status : (m : String) → nest.get_status (conflict m) ≡ some 409
  pub unauthorized_status : (m : String) → nest.get_status (unauthorized m) ≡ some 401
  pub error_status : (m : String) → nest.get_status (error m) ≡ none
  pub record_missing_status : nest.get_status record_missing ≡ none
  pub unique_violation_status : nest.get_status unique_violation ≡ none

-- What the documentation of the API promises of each error.
abbrev pub shown : Nest → Exception → ℕ × String
shown nest (not_found m) = (404, nest.get_message (not_found m))
shown nest (bad_request m) = (400, nest.get_message (bad_request m))
shown nest (forbidden m) = (403, nest.get_message (forbidden m))
shown nest (conflict m) = (409, nest.get_message (conflict m))
shown nest (unauthorized m) = (401, nest.get_message (unauthorized m))
shown nest (error m) = (500, "Internal server error")
shown nest record_missing = (500, "Internal server error")
shown nest unique_violation = (500, "Internal server error")

abbrev pub answer_of : {A : Type 0} → Nest → Request → (status now : ℕ) → Result A → Reply A
answer_of nest request status now (ok a) = success status a now
answer_of nest request status now (throws x) =
    failure (shown nest x).0 now request.url request.method (shown nest x).1

module _ (c : Client) (nest : Nest) (statuses : HasStatuses nest) where
  catch_exception-eq :
      {A : Type 0} (request : Request) (now : ℕ) (x : Exception)
      → catch_exception {A = A} nest request now x
        ≡ failure (shown nest x).0 now request.url request.method (shown nest x).1
  unfolding catch_exception
  catch_exception-eq request now (not_found m) = rw (statuses.not_found_status m) refl
  catch_exception-eq request now (bad_request m) = rw (statuses.bad_request_status m) refl
  catch_exception-eq request now (forbidden m) = rw (statuses.forbidden_status m) refl
  catch_exception-eq request now (conflict m) = rw (statuses.conflict_status m) refl
  catch_exception-eq request now (unauthorized m) = rw (statuses.unauthorized_status m) refl
  catch_exception-eq request now (error m) = rw (statuses.error_status m) refl
  catch_exception-eq request now record_missing = rw (statuses.record_missing_status) refl
  catch_exception-eq request now unique_violation = rw (statuses.unique_violation_status) refl

  reply-eq :
      {A : Type 0} (request : Request) (status : ℕ) (r : Result A × World c)
      → reply nest request status r ≡ (answer_of nest request status r.1.now r.0, r.1)
  unfolding intercept
  reply-eq {A} request status (ok a, v) = refl
  reply-eq {A} request status (throws x, v) =
      ap (λ (f : Reply A). (f, v)) (catch_exception-eq request v.now x)

  -- A handler that throws is answered, whatever it threw, with the status of its exception and its
  -- message, or with 500 and no detail where it is no HttpException; a handler that returns is
  -- answered with the status of its route and its value. Neither changes what the handler left.
  pub respond_lem :
      {A : Type 0} (request : Request) (status : ℕ) (m : Action c A) (w : World c)
      → respond nest request status m w
        ≡ (answer_of nest request status (m w).1.now (m w).0, (m w).1)
  unfolding respond
  respond_lem request status m w = reply-eq request status (m w)
