-- ===== src/Tests/ChainTests.antt =====
-- The Stellar service at concrete inputs.
use nexus_hub_contract.Prelude.{
  ℕ, String, ◌≡◌, refl, none, some, List, [], ◌∷◌, arith, zero, suc, ◌+◌, nat_eq, if◌then◌else◌,
  true, ◌∙◌, String-discrete,
}
use Prim.Native.Char.{code}
use Prim.Native.String.{len}
use nexus_hub_contract.Prisma.Action.{Exception, ok, throws, error}
use nexus_hub_contract.Stellar.Cipher
use nexus_hub_contract.Stellar.Cipher.{encrypt_secret, decrypt_secret}
use nexus_hub_contract.Stellar.Cipher.Laws.{decrypt_secret-encrypt_secret}
use nexus_hub_contract.Stellar.Sdk.{Sdk, Simulation, Sent, TransactionStatus}
use nexus_hub_contract.Stellar.Invoke.{Config, poll, invoke, simulated_call, sign_auth, submitted}
use nexus_hub_contract.Stellar.Invoke.Laws.{IsConfirmed}
use nexus_hub_contract.Stellar.Invoke.Authorization.{IsSent, invoke-IsSent}
use nexus_hub_contract.Stellar.Service.{service, fund_escrow}
use nexus_hub_contract.Stellar.Service.Laws.{Call, answer, service-IsConfirmed}
use nexus_hub_contract.Contract.Interface.{is_callable, Runs}
use nexus_hub_contract.Contract.Interface.Requests.{args_of, requested, requests_fit}
use nexus_hub_contract.Contract.Interface.Release.{release_stuck}
use nexus_hub_contract.Prisma.Memory.{memory}
use nexus_hub_contract.Worker.Settle
use nexus_hub_contract.Tests.Fixtures.{funded_world}

-- A network that confirms a transaction at the second poll.
abbrev network : Sdk
network = record {
  Key = String;
  Entry = String;
  Raw = ℕ;
  from_secret = λ s. ok s;
  public_key = λ k. k;
  get_account = λ key. ok tt;
  simulate = λ contract method args. Simulation.simulated 5 ("alice" ∷ []) none;
  entry_address = λ e. some e;
  authorize_entry = λ e key until. ok e;
  set_auth = λ raw entries. ok entries;
  send = λ envelope. ok (Sent.sent "hash");
  get_transaction = λ hash n. elim n [
    | zero ↦ ok TransactionStatus.pending
    | suc m ↦ ok TransactionStatus.success
  ];
  to_native = λ raw. record {
    client_approved = none;
    freelancer_approved = none;
    milestones_completed = none;
    milestones_total = none;
  };
  from_hex = λ s. [];
  show_number = λ n. "n";
}

abbrev settings : Config network
settings = record { admin_keypair = "admin"; contract_id = "C"; token_contract_id = "T" }

-- Unary bytes: `n` is n letters `a` and a letter `b`.
abbrev letters : ℕ → String → String
letters zero s = String.◌∷◌ "b" s
letters (suc n) s = String.◌∷◌ "a" (letters n s)

abbrev unary : List ℕ → String
unary [] = ""
unary (n ∷ ns) = letters n (unary ns)

abbrev read_unary : String → ℕ → List ℕ
read_unary String.[] n = []
read_unary (String.◌∷◌ c s) n =
    let next = read_unary s 0 in
    let more = read_unary s (suc n) in if nat_eq (code c) 97 then more else n ∷ next

read_letters : (n m : ℕ) (s : String) → read_unary (letters n s) m ≡ (n + m) ∷ read_unary s 0
read_letters zero m s = let e : 0 + m ≡ m = omega arith in rw e refl
read_letters (suc n) m s =
    let e : n + suc m ≡ suc n + m = omega arith in rw e at (read_letters n (suc m) s)

read_unary-unary : (ns : List ℕ) → read_unary (unary ns) 0 ≡ ns
read_unary-unary [] = refl
read_unary-unary (n ∷ ns) =
    let e : n + 0 ≡ n = omega arith in
    let rest = read_unary-unary ns in read_letters n 0 (unary ns) ∙ rw (e, rest) refl

abbrev repeated : ℕ → String
repeated zero = ""
repeated (suc n) = String.◌∷◌ "a" (repeated n)

-- A cipher that counts the bytes of the text: it serves texts of the letter `a`.
abbrev counting : Cipher.Crypto
counting = record {
  encrypt = λ iv s. len s ∷ [];
  auth_tag = λ iv s. 0 ∷ 0 ∷ 0 ∷ 0 ∷ 0 ∷ 0 ∷ 0 ∷ 0 ∷ 0 ∷ 0 ∷ 0 ∷ 0 ∷ 0 ∷ 0 ∷ 0 ∷ 0 ∷ [];
  decrypt = λ iv tag bytes. elim bytes [ [] ↦ throws (error "empty") | n ∷ ns ↦ ok (repeated n) ];
  to_base64 = unary;
  from_base64 = λ s. read_unary s 0;
}

abbrev iv : List ℕ
iv = 1 ∷ 2 ∷ 3 ∷ 4 ∷ 5 ∷ 6 ∷ 7 ∷ 8 ∷ 9 ∷ 10 ∷ 11 ∷ 12 ∷ []

service-IsConfirmed_example : IsConfirmed network "hash" 0 30
unfolding invoke simulated_call sign_auth submitted poll service fund_escrow String-discrete
service-IsConfirmed_example =
    service-IsConfirmed network settings counting (λ s. s) (Call.fund "e1" "alice") "hash" refl

invoke-IsSent_example :
    IsSent network settings "fund" [] ("alice" ∷ []) "hash" (network.simulate "C" "fund" [])
unfolding invoke simulated_call sign_auth submitted poll String-discrete
invoke-IsSent_example = invoke-IsSent network settings "fund" [] ("alice" ∷ []) "hash" refl

decrypt_secret-encrypt_secret_example :
    decrypt_secret counting (encrypt_secret counting iv "aaa") ≡ ok "aaa"
decrypt_secret-encrypt_secret_example =
    decrypt_secret-encrypt_secret counting iv "aaa" refl refl read_unary-unary refl

-- The network with the contract's interface.
abbrev typed : Sdk
typed = record network {
  simulate = λ contract method args.
      if is_callable method args
      then Simulation.simulated 5 ("alice" ∷ []) none
      else Simulation.simulation_error "arguments";
}

abbrev deployment : Config typed
deployment = record { admin_keypair = "admin"; contract_id = "C"; token_contract_id = "T" }

typed-Runs : Runs typed deployment
typed-Runs = record { unfit-fails = λ method args unfit. ("arguments", rw unfit refl) }

release_stuck_example :
    let (r, v) =
      Settle.release_escrow memory
        (service typed deployment counting (λ s. s))
        "e1"
        "alice"
        funded_world in
    ((x : Exception) × (r ≡ throws x)) × (v ≡ funded_world)
release_stuck_example =
    release_stuck typed deployment typed-Runs memory counting (λ s. s) "e1" "alice" funded_world

requests_fit_example :
    (answer (service typed deployment counting (λ s. s)) (Call.fund "e1" "alice")
      ≡ requested typed deployment (Call.fund "e1" "alice") (some "alice"))
    × ((k : String)
        → is_callable "fund" (args_of typed deployment (Call.fund "e1" "alice") k) ≡ true)
requests_fit_example = requests_fit typed deployment counting (λ s. s) (Call.fund "e1" "alice")
