-- ===== src/Model.antt =====
-- internal/model/model.go: the domain types that every other component works on.
-- A `float64` is any type `F` with the operations of `Base.Float`; an `int64` or `int32` is an `ℤ`
-- in its range; a string is a list of code points; a map is an association list, in the order in
-- which the loop at hand visits it; a `time.Duration` counts nanoseconds.
use kubetidy.Base.{if◌then◌else◌, ℕ, ◌*◌, Bool, true, false, ◌&&◌, List, ◌++◌}
use kubetidy.Base.Float.{Float64, ◌⊕◌, ◌⊗◌, less, decimal}
use kubetidy.Base.Int.{ℤ, pos, eqb_ℤ}
use kubetidy.Base.Text.{Text, codes}

-- The constants of `EvidenceTier`, from the least to the most precise.
pub data EvidenceTier : Type 0 where
  static snapshot operator historical allocated : EvidenceTier

-- The integer that the constant stands for.
abbrev pub tier_rank : EvidenceTier → ℕ
tier_rank static = 0
tier_rank snapshot = 1
tier_rank operator = 2
tier_rank historical = 3
tier_rank allocated = 4

abbrev pub is_snapshot : EvidenceTier → Bool
is_snapshot snapshot = true
is_snapshot _ = false

abbrev pub tier_text : EvidenceTier → Text
tier_text static = codes "static (no usage data)"
tier_text snapshot = codes "snapshot (metrics-server, limited)"
tier_text operator = codes "0 (kubetidy operator)"
tier_text historical = codes "1 (Prometheus)"
tier_text allocated = codes "2 (OpenCost)"

abbrev pub kind_deployment : Text
kind_deployment = codes "Deployment"

abbrev pub kind_stateful_set : Text
kind_stateful_set = codes "StatefulSet"

abbrev pub kind_daemon_set : Text
kind_daemon_set = codes "DaemonSet"

-- Zero means "unset".
pub record ResourceAmounts : Type 0 where
  pub cpu_millicores : ℤ
  pub memory_bytes : ℤ

unfoldable pub is_zero : ResourceAmounts → Bool
is_zero r = eqb_ℤ r.cpu_millicores (pos 0) && eqb_ℤ r.memory_bytes (pos 0)

pub record ResourceSpec : Type 0 where
  pub requests : ResourceAmounts
  pub limits : ResourceAmounts

pub record Container : Type 0 where
  pub name : Text
  pub requests : ResourceAmounts
  pub limits : ResourceAmounts

pub record Workload : Type 0 where
  pub kind : Text
  pub name : Text
  pub namespace : Text
  pub replicas : ℤ
  pub containers : List Container
  pub selector : List (Text × Text)
  pub node_labels : List (Text × Text)

-- "kind/namespace/name"
unfoldable pub workload_ref : Workload → Text
workload_ref w = w.kind ++ (codes "/" ++ (w.namespace ++ (codes "/" ++ w.name)))

pub record Percentiles (F : Type 0) : Type 0 where
  pub avg : F
  pub p50 : F
  pub p95 : F
  pub p99 : F
  pub peak : F
  pub cv : F

pub record UsageStats (F : Type 0) : Type 0 where
  pub cpu_millicores : Percentiles F
  pub memory_bytes : Percentiles F
  pub window : ℤ
  pub samples : ℤ
  pub tier : EvidenceTier

pub record Policy (F : Type 0) : Type 0 where
  pub cpu_headroom : F
  pub memory_headroom : F
  pub set_cpu_limit : Bool
  pub memory_limit_equals_request : Bool
  pub snapshot_headroom : F
  pub min_cpu_request_millicores : ℤ
  pub min_memory_request_bytes : ℤ
  pub downsize_only_on_snapshot : Bool
  pub memory_immature_safety : F

pub record ResourcePrice (F : Type 0) : Type 0 where
  pub cpu_core_month : F
  pub mem_gib_month : F
  pub source : Text

pub record Confidence (F : Type 0) : Type 0 where
  pub score : F
  pub reason : Text

pub data ConfidenceBand : Type 0 where
  low medium high : ConfidenceBand

pub record Recommendation (F : Type 0) : Type 0 where
  pub workload : Workload
  pub container_name : Text
  pub current : ResourceSpec
  pub proposed : ResourceSpec
  pub monthly_savings : F
  pub confidence : Confidence F
  pub tier : EvidenceTier
  pub usage : UsageStats F
  pub evidence : Text
  pub explanation : List Text

pub record ScoreFactor (F : Type 0) : Type 0 where
  pub name : Text
  pub value : F
  pub description : Text

pub record ScanResult (F : Type 0) : Type 0 where
  pub context : Text
  pub namespace : Text
  pub tier : EvidenceTier
  pub generated_at : ℤ
  pub workload_count : ℕ
  pub recommendations : List (Recommendation F)
  pub efficiency_score : ℤ
  pub score_breakdown : List (ScoreFactor F)
  pub total_monthly_waste : F
  pub warnings : List Text

module _ {F : Type 0} ⦃fl : Float64 F⦄ where
  abbrev pub default_policy : Policy F
  default_policy = record {
    cpu_headroom = decimal 15 2;
    memory_headroom = decimal 15 2;
    set_cpu_limit = false;
    memory_limit_equals_request = true;
    snapshot_headroom = decimal 1 0;
    min_cpu_request_millicores = pos 10;
    min_memory_request_bytes = pos (32 * 1024 * 1024);
    downsize_only_on_snapshot = true;
    memory_immature_safety = decimal 1 0;
  }

  -- `Confidence.Percent`
  unfoldable pub percent : Confidence F → ℤ
  percent c = fl.truncate (c.score ⊗ decimal 100 0 ⊕ decimal 5 1)

  -- `Confidence.Band`
  unfoldable pub band : Confidence F → ConfidenceBand
  band c =
      if less c.score (decimal 60 2)
      then low
      else if less c.score (decimal 80 2)
      then medium
      else high
