-- ===== src/Profile.antt =====
-- internal/apis/usageprofile/types.go: the UsageProfile object, its name and its generic form.
pub mod Naming
pub mod RoundTrip
mod Tests
use kubetidy.Base.{
  leb, ◌==◌, if◌then◌else◌, ℕ, Bool, ◌&&◌, ◌||◌, Option, none, some, List, [], ◌∷◌, ◌++◌,
}
use kubetidy.Base.Float.{Float64, nought, of_int}
use kubetidy.Base.Int.{ℤ, pos}
use kubetidy.Base.Text.{Text, codes, text_eq}

pub record TargetRef : Type 0 where
  pub kind : Text
  pub name : Text

pub record MetricHistory (F : Type 0) : Type 0 where
  pub avg : F
  pub p50 : F
  pub p95 : F
  pub p99 : F
  pub max_seen : F
  pub histogram : Text

pub record ContainerHistory (F : Type 0) : Type 0 where
  pub name : Text
  pub cpu : MetricHistory F
  pub memory : MetricHistory F

pub record Status (F : Type 0) : Type 0 where
  pub observed_since : Text
  pub last_updated : Text
  pub sample_count : ℤ
  pub window_seconds : F
  pub containers : List (ContainerHistory F)

pub record Spec : Type 0 where
  pub target_ref : TargetRef

pub record UsageProfile (F : Type 0) : Type 0 where
  pub name : Text
  pub namespace : Text
  pub spec : Spec
  pub status : Status F

-- What a Go `any` holds in an unstructured object; a map is its list of entries.
mutual
  pub data Value (F : Type 0) : Type 0 where
    text : Text → Value F
    whole : ℤ → Value F
    number : F → Value F
    object : Entries F → Value F
    array : Items F → Value F

  pub data Entries (F : Type 0) : Type 0 where
    no_entry : Entries F
    entry : Text → Value F → Entries F → Entries F

  pub data Items (F : Type 0) : Type 0 where
    no_item : Items F
    item : Value F → Items F → Items F

-- `m[key]`
unfoldable pub lookup_key : {F : Type 0} → Text → Entries F → Option (Value F)
unfolding text_eq
lookup_key key no_entry = none
lookup_key key (entry k v m) = if text_eq k key then some v else lookup_key key m

abbrev pub as_map : {F : Type 0} → Option (Value F) → Option (Entries F)
as_map (some (object m)) = some m
as_map _ = none

abbrev pub as_text : {F : Type 0} → Option (Value F) → Text
as_text (some (text s)) = s
as_text _ = []

unfoldable pub nested_map : {F : Type 0} → Entries F → Text → Option (Entries F)
unfolding lookup_key
nested_map m key = as_map (lookup_key key m)

unfoldable pub nested_string : {F : Type 0} → Entries F → Text → Text
unfolding lookup_key
nested_string m key = as_text (lookup_key key m)

unfoldable pub api_group : Text
api_group = codes "kubetidy.io"

unfoldable pub api_kind : Text
api_kind = codes "UsageProfile"

unfoldable pub api_version : Text
unfolding api_group
api_version = api_group ++ (codes "/" ++ codes "v1alpha1")

-- The runes that a name keeps.
unfoldable pub is_name_rune : ℕ → Bool
is_name_rune r = (leb 97 r && leb r 122) || ((leb 48 r && leb r 57) || ((r == 45) || (r == 46)))

-- The loop of `sanitizeDNS`.
unfoldable pub replace_runes : Text → Text
unfolding is_name_rune
replace_runes [] = []
replace_runes (r ∷ s) = (if is_name_rune r then r else 45) ∷ replace_runes s

unfoldable pub is_trimmed_rune : ℕ → Bool
is_trimmed_rune r = (r == 45) || (r == 46)

-- `strings.Trim(s, "-.")`, from the left and from the right.
unfoldable pub trim_left : Text → Text
unfolding is_trimmed_rune
trim_left [] = []
trim_left (r ∷ s) = let rest = trim_left s in if is_trimmed_rune r then rest else r ∷ s

unfoldable pub drop_trimmed : ℕ → Text → Text
unfolding is_trimmed_rune
drop_trimmed r [] = if is_trimmed_rune r then [] else r ∷ []
drop_trimmed r (c ∷ s) = r ∷ c ∷ s

unfoldable pub trim_right : Text → Text
unfolding drop_trimmed
trim_right [] = []
trim_right (r ∷ s) = drop_trimmed r (trim_right s)

abbrev pub or_x : Text → Text
or_x [] = codes "x"
or_x (r ∷ s) = r ∷ s

module _ (to_lower : Text → Text) where
  unfoldable pub sanitize_dns : Text → Text
  unfolding replace_runes trim_left trim_right
  sanitize_dns s = or_x (trim_right (trim_left (replace_runes (to_lower s))))

  unfoldable pub object_name : Text → Text → Text
  unfolding sanitize_dns
  object_name kind name = sanitize_dns (to_lower kind ++ (codes "-" ++ name))

module _ {F : Type 0} ⦃fl : Float64 F⦄ where
  abbrev pub as_float : Option (Value F) → F
  as_float (some (number v)) = v
  as_float (some (whole v)) = of_int v
  as_float _ = nought

  abbrev pub as_int64 : Option (Value F) → ℤ
  as_int64 (some (whole v)) = v
  as_int64 (some (number v)) = fl.truncate v
  as_int64 _ = pos 0

  unfoldable pub nested_float : Entries F → Text → F
  unfolding lookup_key
  nested_float m key = as_float (lookup_key key m)

  unfoldable pub nested_int64 : Entries F → Text → ℤ
  unfolding lookup_key
  nested_int64 m key = as_int64 (lookup_key key m)

  unfoldable pub metric_to_map : MetricHistory F → Entries F
  metric_to_map m = entry (codes "avg") (number m.avg) (
      entry (codes "p50") (number m.p50) (
        entry (codes "p95") (number m.p95) (
          entry (codes "p99") (number m.p99) (
            entry (codes "max") (number m.max_seen)
              (entry (codes "histogram") (text m.histogram) no_entry)))))

  unfoldable pub containers_to_items : List (ContainerHistory F) → Items F
  unfolding metric_to_map
  containers_to_items [] = no_item
  containers_to_items (c ∷ cs) =
      item
        (object (
          entry (codes "name") (text c.name) (
            entry (codes "cpu") (object (metric_to_map c.cpu))
              (entry (codes "memory") (object (metric_to_map c.memory)) no_entry))))
        (containers_to_items cs)

  unfoldable pub status_to_map : Status F → Entries F
  unfolding containers_to_items
  status_to_map s = entry (codes "observedSince") (text s.observed_since) (
      entry (codes "lastUpdated") (text s.last_updated) (
        entry (codes "sampleCount") (whole s.sample_count) (
          entry (codes "windowSeconds") (number s.window_seconds)
            (entry (codes "containers") (array (containers_to_items s.containers)) no_entry))))

  unfoldable pub to_unstructured : UsageProfile F → Entries F
  unfolding status_to_map api_version api_kind
  to_unstructured u = entry (codes "apiVersion") (text api_version) (
      entry (codes "kind") (text api_kind) (
        entry (codes "metadata")
          (object (
            entry (codes "name") (text u.name)
              (entry (codes "namespace") (text u.namespace) no_entry)))
          (entry (codes "spec")
            (object (
              entry (codes "targetRef")
                (object (
                  entry (codes "kind") (text u.spec.target_ref.kind)
                    (entry (codes "name") (text u.spec.target_ref.name) no_entry)))
                no_entry))
            (entry (codes "status") (object (status_to_map u.status)) no_entry))))

  unfoldable pub metric_from_map : Entries F → MetricHistory F
  unfolding nested_float nested_string
  metric_from_map m = record {
    avg = nested_float m (codes "avg");
    p50 = nested_float m (codes "p50");
    p95 = nested_float m (codes "p95");
    p99 = nested_float m (codes "p99");
    max_seen = nested_float m (codes "max");
    histogram = nested_string m (codes "histogram");
  }

  abbrev pub no_metric : MetricHistory F
  no_metric = record {
    avg = nought;
    p50 = nought;
    p95 = nought;
    p99 = nought;
    max_seen = nought;
    histogram = [];
  }

  -- The history under a key, which is zero where there is no map.
  unfoldable pub metric_in : Option (Entries F) → MetricHistory F
  unfolding metric_from_map
  metric_in none = no_metric
  metric_in (some m) = metric_from_map m

  unfoldable pub container_from : Entries F → ContainerHistory F
  unfolding metric_in nested_map nested_string
  container_from m = record {
    name = nested_string m (codes "name");
    cpu = metric_in (nested_map m (codes "cpu"));
    memory = metric_in (nested_map m (codes "memory"));
  }

  -- The loop of `statusFromMap`, which skips what is no map.
  unfoldable pub containers_from_items : Items F → List (ContainerHistory F)
  containers_from_items no_item = []
  containers_from_items (item (object m) rest) = container_from m ∷ containers_from_items rest
  containers_from_items (item _ rest) = containers_from_items rest

  unfoldable pub as_containers : Option (Value F) → List (ContainerHistory F)
  unfolding containers_from_items
  as_containers (some (array raw)) = containers_from_items raw
  as_containers _ = []

  unfoldable pub status_from_map : Entries F → Status F
  unfolding nested_string nested_int64 nested_float lookup_key
  status_from_map m = record {
    observed_since = nested_string m (codes "observedSince");
    last_updated = nested_string m (codes "lastUpdated");
    sample_count = nested_int64 m (codes "sampleCount");
    window_seconds = nested_float m (codes "windowSeconds");
    containers = as_containers (lookup_key (codes "containers") m);
  }

  abbrev pub no_status : Status F
  no_status = record {
    observed_since = [];
    last_updated = [];
    sample_count = pos 0;
    window_seconds = nought;
    containers = [];
  }

  unfoldable pub target_in : Option (Entries F) → TargetRef
  unfolding nested_string
  target_in none = record { kind = []; name = [] }
  target_in (some ref) = record {
    kind = nested_string ref (codes "kind");
    name = nested_string ref (codes "name");
  }

  unfoldable pub spec_in : Option (Entries F) → Spec
  unfolding nested_map
  spec_in none = record { target_ref = record { kind = []; name = [] } }
  spec_in (some spec) = record { target_ref = target_in (nested_map spec (codes "targetRef")) }

  unfoldable pub status_in : Option (Entries F) → Status F
  unfolding status_from_map
  status_in none = no_status
  status_in (some status) = status_from_map status

  -- `GetName` and `GetNamespace` read the metadata.
  unfoldable pub metadata_text : Option (Entries F) → Text → Text
  unfolding nested_string
  metadata_text none key = []
  metadata_text (some meta) key = nested_string meta key

  unfoldable pub from_unstructured : Entries F → UsageProfile F
  unfolding nested_map status_in
  from_unstructured m = record {
    name = metadata_text (nested_map m (codes "metadata")) (codes "name");
    namespace = metadata_text (nested_map m (codes "metadata")) (codes "namespace");
    spec = spec_in (nested_map m (codes "spec"));
    status = status_in (nested_map m (codes "status"));
  }
