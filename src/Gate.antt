-- ===== src/Gate.antt =====
-- backend/app/services/semantic_gate.py: which run configurations may grade on their own. A
-- fraction is a number of millionths; the approvals are the valid entries of the artifact.
pub mod Decision
use doc_grading.Prelude.{
  ℕ, String, Bool, true, false, not, ◌&&◌, ◌||◌, Option, none, some, List, [], ◌∷◌, ◌==◌, leb,
  str_eq, is_some, is_blank, if◌then◌else◌,
}

pub record RunConfiguration : Type 0 where
  pub evaluator_version : String
  pub prompt_version : String
  pub prompt_fingerprint : String
  pub retrieval_version : String
  pub source_ir_version : ℕ
  pub provider : String
  pub protocol : String
  pub model_id : String
  pub encoder_model : String
  pub encoder_fingerprint : String
  pub encoder_query_prefix : String
  pub reranker : Bool
  pub max_tokens : ℕ

-- the metrics of a benchmark that the gate reads
pub record Benchmark : Type 0 where
  pub annotation_status : String
  pub pairs : ℕ
  pub human_gold_pairs : ℕ
  pub double_annotated_fraction : ℕ
  pub heldout_agreement : ℕ
  pub anchor_completeness : ℕ
  pub structured_success_rate : ℕ
  pub macro_f1 : ℕ
  pub false_accusation_rate : ℕ
  pub hit_at_3 : ℕ

pub record Approval : Type 0 where
  pub approval_id : String
  pub configuration : RunConfiguration
  pub benchmark : Benchmark
  pub approved_by : Option String
  pub approved_at : Option ℕ

abbrev same_flag : Bool → Bool → Bool
same_flag true b = b
same_flag false b = not b

-- `a.configuration == run`, field by field
unfoldable pub same_configuration : RunConfiguration → RunConfiguration → Bool
same_configuration a b =
    str_eq a.evaluator_version b.evaluator_version
    && str_eq a.prompt_version b.prompt_version
    && str_eq a.prompt_fingerprint b.prompt_fingerprint
    && str_eq a.retrieval_version b.retrieval_version
    && a.source_ir_version == b.source_ir_version
    && str_eq a.provider b.provider
    && str_eq a.protocol b.protocol
    && str_eq a.model_id b.model_id
    && str_eq a.encoder_model b.encoder_model
    && str_eq a.encoder_fingerprint b.encoder_fingerprint
    && str_eq a.encoder_query_prefix b.encoder_query_prefix
    && same_flag a.reranker b.reranker
    && a.max_tokens == b.max_tokens

abbrev not_blank : Option String → Bool
not_blank none = false
not_blank (some s) = not (is_blank s)

unfoldable pub is_approved : Approval → Bool
is_approved a = not_blank a.approved_by && is_some a.approved_at

-- `verified` of `meets_thresholds`: human gold pairs, or the consensus of models
unfoldable pub is_verified : Benchmark → Bool
is_verified b =
    (leb 100 b.human_gold_pairs && leb 200000 b.double_annotated_fraction)
    || (str_eq b.annotation_status "AI_CONSENSUS"
        && leb 800 b.pairs
        && leb 950000 b.heldout_agreement)

unfoldable pub meets_thresholds : Approval → Bool
meets_thresholds a =
    is_verified a.benchmark
    && a.benchmark.anchor_completeness == 1000000
    && leb 990000 a.benchmark.structured_success_rate
    && leb 800000 a.benchmark.macro_f1
    && leb a.benchmark.false_accusation_rate 20000
    && leb 900000 a.benchmark.hit_at_3

pub data Reason : Type 0 where
  no_model no_encoder no_benchmark pending below_thresholds encoder_fell_back passed : Reason

pub record GateDecision : Type 0 where
  pub is_passed : Bool
  pub reason : Reason
  pub approval : Option Approval

abbrev blocked : Reason → Option Approval → GateDecision
blocked reason approval = record { is_passed = false; reason = reason; approval = approval }

-- `matches`, the entries of the run's configuration
abbrev is_match : Option RunConfiguration → Approval → Bool
is_match none a = false
is_match (some run) a = same_configuration a.configuration run

unfoldable pub matching : Option RunConfiguration → List Approval → List Approval
matching run [] = []
matching run (a ∷ as_) = if is_match run a then a ∷ matching run as_ else matching run as_

abbrev pub head : List Approval → Option Approval
head [] = none
head (a ∷ _) = some a

unfoldable pub first_approved : List Approval → Option Approval
first_approved [] = none
first_approved (a ∷ as_) = if is_approved a then some a else first_approved as_

abbrev pub or_head : Option Approval → List Approval → Option Approval
or_head (some a) ms = some a
or_head none ms = head ms

-- the first approved match, or else the first match
unfoldable pub entry_of : Option RunConfiguration → List Approval → Option Approval
entry_of run approvals = or_head (first_approved (matching run approvals)) (matching run approvals)

unfoldable pub judge : ℕ → Option Approval → GateDecision
judge failures none = blocked Reason.no_benchmark none
judge failures (some a) =
    if not (is_approved a)
    then blocked Reason.pending (some a)
    else if not (meets_thresholds a)
    then blocked Reason.below_thresholds (some a)
    else if not (failures == 0)
    then blocked Reason.encoder_fell_back (some a)
    else record { is_passed = true; reason = Reason.passed; approval = some a }

abbrev decide_encoded : List Approval → Option RunConfiguration → Option ℕ → GateDecision
decide_encoded approvals run none = blocked Reason.no_encoder none
decide_encoded approvals run (some failures) = judge failures (entry_of run approvals)

-- `decide`, over the approvals that have been loaded
unfoldable pub decide : List Approval → Option RunConfiguration → Bool → Option ℕ → GateDecision
decide approvals run has_model encoder_failures =
    if has_model
    then decide_encoded approvals run encoder_failures
    else blocked Reason.no_model none
