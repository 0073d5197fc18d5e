-- ===== src/Engine/Protocol.antt =====
-- `ResolveDelivery` of internal/workflow/protocol.go: what a physical delivery is about. The decoder of
-- JSON is outside code.
use queue.Prelude.{
  ◌≡◌, ◌≢◌, refl, ap, sym, subst, ℕ, Bool, true, false, not, ◌||◌, ◌==◌, eq_iff, eqb_iff, String,
  List, [], ◌∷◌, Result, ok, err, arith, if◌then◌else◌, Bool-cases, Result-cases, inl, inr,
}
use queue.Prelude.Int.{ℤ, pos, negsuc, eqb_ℤ}
use queue.Delivery.Failure.{Failure}
use queue.Engine.Types.{
  Envelope, protocol_schema_version, direct_delivery_type, chain_node_delivery_type,
  batch_job_delivery_type, callback_delivery_type, is_delivery_type,
}

pub record ResolvedDelivery : Type 0 where
  pub job_type : String
  pub payload : List ℕ
  pub dispatch_id : String
  pub job_id : String
  pub chain_id : String
  pub batch_id : String

abbrev pub is_nothing : List ℕ → Bool
is_nothing [] = true
is_nothing (b ∷ bytes) = false

-- The physical identity.
unfoldable pub physical : String → List ℕ → ResolvedDelivery
physical type payload = record {
  job_type = type;
  payload = payload;
  dispatch_id = "";
  job_id = "";
  chain_id = "";
  batch_id = "";
}

-- The identity and the correlation of an envelope that was decoded.
unfoldable pub logical : String → List ℕ → Envelope → ResolvedDelivery
logical type payload env = record {
  job_type = if env.job.type == "" then type else env.job.type;
  payload = if env.job.type == "" then payload else env.job.payload;
  dispatch_id = env.dispatch_id;
  job_id = env.job_id;
  chain_id = env.chain_id;
  batch_id = env.batch_id;
}

unfoldable pub resolve_delivery :
    (List ℕ → Result Failure Envelope) → String → List ℕ → ResolvedDelivery
unfolding physical logical is_delivery_type
resolve_delivery unmarshal type payload =
    if type == "" || is_nothing payload || not (is_delivery_type type)
    then physical type payload
    else elim (unmarshal payload) [
      | err e ↦ physical type payload
      | ok env ↦
          if not (eqb_ℤ env.schema_version protocol_schema_version)
          then physical type payload
          else logical type payload env
    ]

-- The four deliveries of the engine.
pub data IsEngineType : String → Type 0 where
  direct : IsEngineType direct_delivery_type
  chain_node : IsEngineType chain_node_delivery_type
  batch_job : IsEngineType batch_job_delivery_type
  callback : IsEngineType callback_delivery_type

-- The payload is an envelope that the protocol understands.
pub record Understood (unmarshal : List ℕ → Result Failure Envelope) (type : String)
    (payload : List ℕ) (env : Envelope) : Type 0 where
  pub known : IsEngineType type
  pub some_bytes : payload ≢ []
  pub decoded : unmarshal payload ≡ ok env
  pub version : env.schema_version ≡ protocol_schema_version

-- What a delivery is resolved to.
pub data Resolves (unmarshal : List ℕ → Result Failure Envelope) (type : String) (payload : List ℕ)
    : ResolvedDelivery → Type 0 where
  names_job :
      (env : Envelope)
      → Understood unmarshal type payload env
      → env.job.type ≢ ""
      → Resolves unmarshal type payload (record {
        job_type = env.job.type;
        payload = env.job.payload;
        dispatch_id = env.dispatch_id;
        job_id = env.job_id;
        chain_id = env.chain_id;
        batch_id = env.batch_id;
      })
  names_no_job :
      (env : Envelope)
      → Understood unmarshal type payload env
      → env.job.type ≡ ""
      → Resolves unmarshal type payload (record {
        job_type = type;
        payload = payload;
        dispatch_id = env.dispatch_id;
        job_id = env.job_id;
        chain_id = env.chain_id;
        batch_id = env.batch_id;
      })
  not_understood :
      ((env : Envelope) → ¬ Understood unmarshal type payload env)
      → Resolves unmarshal type payload (record {
        job_type = type;
        payload = payload;
        dispatch_id = "";
        job_id = "";
        chain_id = "";
        batch_id = "";
      })

-- `IsDeliveryType` knows just the engine's types.
is_delivery_type-IsEngineType : (type : String) → is_delivery_type type ≡ true → IsEngineType type
unfolding is_delivery_type
is_delivery_type-IsEngineType type h = elim (Bool-cases (type == direct_delivery_type)) [
  | inl e ↦ subst IsEngineType (sym ((eq_iff type direct_delivery_type).0 e)) direct
  | inr a ↦ elim (Bool-cases (type == chain_node_delivery_type)) [
    | inl e ↦ subst IsEngineType (sym ((eq_iff type chain_node_delivery_type).0 e)) chain_node
    | inr b ↦ elim (Bool-cases (type == batch_job_delivery_type)) [
      | inl e ↦ subst IsEngineType (sym ((eq_iff type batch_job_delivery_type).0 e)) batch_job
      | inr c ↦
          let last : (type == callback_delivery_type) ≡ true = ground (arith, h, a, b, c) in
          subst IsEngineType (sym ((eq_iff type callback_delivery_type).0 last)) callback
    ]
  ]
]

engine_type_known :
    (type : String) → IsEngineType type → (type == "") ≡ false × (is_delivery_type type ≡ true)
unfolding is_delivery_type
engine_type_known _ direct = (refl, refl)
engine_type_known _ chain_node = (refl, refl)
engine_type_known _ batch_job = (refl, refl)
engine_type_known _ callback = (refl, refl)

version_agrees : (v : ℤ) → eqb_ℤ v protocol_schema_version ≡ true → v ≡ protocol_schema_version
version_agrees (pos n) h = ap pos ((eqb_iff n 1).0 h)
version_agrees (negsuc n) h = cc

module _ (unmarshal : List ℕ → Result Failure Envelope) (type : String) where
  -- A payload that is read.
  decodes :
      (byte : ℕ) (bytes : List ℕ) (env : Envelope)
      → (type == "") ≡ false
      → is_delivery_type type ≡ true
      → unmarshal (byte ∷ bytes) ≡ ok env
      → Resolves unmarshal type (byte ∷ bytes) (resolve_delivery unmarshal type (byte ∷ bytes))
  unfolding resolve_delivery physical logical
  decodes byte bytes env some_type known read =
      elim (Bool-cases (eqb_ℤ env.schema_version protocol_schema_version)) [
        | inr other_version ↦
            subst (Resolves unmarshal type (byte ∷ bytes))
              (ground (arith, some_type, known, read, other_version))
              (not_understood (λ e u. ground (arith, u.decoded, u.version, read, other_version)))
        | inl same_version ↦
            let understood : Understood unmarshal type (byte ∷ bytes) env = record {
              known = is_delivery_type-IsEngineType type known;
              some_bytes = λ none_left. cc;
              decoded = read;
              version = version_agrees env.schema_version same_version;
            } in
            elim (Bool-cases (env.job.type == "")) [
              | inl unnamed ↦
                  subst (Resolves unmarshal type (byte ∷ bytes))
                    (ground (arith, some_type, known, read, same_version, unnamed))
                    (names_no_job env understood ((eq_iff env.job.type "").0 unnamed))
              | inr named ↦
                  subst (Resolves unmarshal type (byte ∷ bytes))
                    (ground (arith, some_type, known, read, same_version, named))
                    (names_job env understood (ground (arith, named, eq_iff env.job.type "")))
            ]
      ]

  -- A delivery that is not one of the engine's.
  refuses :
      (payload : List ℕ)
      → (type == "" || is_nothing payload || not (is_delivery_type type)) ≡ true
      → Resolves unmarshal type payload (resolve_delivery unmarshal type payload)
  unfolding resolve_delivery physical
  refuses [] refused =
      subst (Resolves unmarshal type []) (ground (arith, refused))
        (not_understood (λ e u. u.some_bytes refl))
  refuses (byte ∷ bytes) refused =
      subst (Resolves unmarshal type (byte ∷ bytes)) (ground (arith, refused)) (
        not_understood (λ e u.
          let (some_type, known) = engine_type_known type u.known in
          ground (arith, refused, some_type, known)))

  -- A delivery of the engine, read or not.
  reads :
      (byte : ℕ) (bytes : List ℕ)
      → (type == "") ≡ false
      → is_delivery_type type ≡ true
      → Resolves unmarshal type (byte ∷ bytes) (resolve_delivery unmarshal type (byte ∷ bytes))
  unfolding resolve_delivery physical
  reads byte bytes some_type known = elim (Result-cases (unmarshal (byte ∷ bytes))) [
    | inr (env, read) ↦ decodes byte bytes env some_type known read
    | inl (e, malformed) ↦
        subst (Resolves unmarshal type (byte ∷ bytes)) (ground (arith, some_type, known, malformed))
          (not_understood (λ env u. ground (arith, u.decoded, malformed)))
  ]

-- A delivery is resolved to the job and the correlation of its envelope exactly where it is one of the
-- engine's four deliveries, its payload is not empty, and the decoder reads there an envelope of the
-- protocol's version; an envelope without a job type gives its correlation only, and everything else
-- keeps its physical type and payload and has no correlation.
pub resolve_delivery-exact :
    (unmarshal : List ℕ → Result Failure Envelope) (type : String) (payload : List ℕ)
    → Resolves unmarshal type payload (resolve_delivery unmarshal type payload)
resolve_delivery-exact unmarshal type [] = refuses unmarshal type [] (ground arith)
resolve_delivery-exact unmarshal type (byte ∷ bytes) =
    elim (Bool-cases (type == "" || not (is_delivery_type type))) [
      | inl refused ↦ refuses unmarshal type (byte ∷ bytes) (ground (arith, refused))
      | inr passes ↦
          reads unmarshal type byte bytes (ground (arith, passes)) (ground (arith, passes))
    ]
