-- ===== src/Operator/Store/Tests.antt =====
-- A `Save` on a server of one object.
use kubetidy.Base.{ℕ, ◌≡◌, refl, none, some, [], ◌∷◌}
use kubetidy.Base.Fixed.{Fixed, fixed_float}
use kubetidy.Base.Float.{decimal}
use kubetidy.Base.Int.{pos}
use kubetidy.Base.Text.{codes, text_eq}
use kubetidy.Operator.Store.{
  set_entry, copy_status, write_status, after_write, upsert, save_profile, get_profile,
}
use kubetidy.Operator.Store.Encoding.{json_value, json_entries}
use kubetidy.Operator.Store.Json.{SameProfile}
use kubetidy.Operator.Store.Laws.{get_profile-save_profile}
use kubetidy.Operator.Store.Slot.{slot, slot-IsServer}
use kubetidy.Profile.{
  MetricHistory, UsageProfile, whole, number, no_entry, entry, lookup_key, nested_float,
  to_unstructured,
}
use kubetidy.Scan.{found}

-- 3.0 is stored as an int64, and 2.5 as a float64.
abbrev figures : ℕ → ℕ → MetricHistory Fixed
figures m d = record {
  avg = decimal m d;
  p50 = decimal m d;
  p95 = decimal m d;
  p99 = decimal m d;
  max_seen = decimal m d;
  histogram = codes "e30=";
}

abbrev small_profile : UsageProfile Fixed
small_profile = record {
  name = codes "deployment-web";
  namespace = codes "shop";
  spec = record { target_ref = record { kind = codes "Deployment"; name = codes "web" } };
  status = record {
    observed_since = codes "2026-05-30T00:00:00Z";
    last_updated = [];
    sample_count = pos 12;
    window_seconds = decimal 3600 0;
    containers = record { name = codes "app"; cpu = figures 3 0; memory = figures 25 1 } ∷ [];
  };
}

get_profile-save_profile_example :
    (p : UsageProfile Fixed) × (get_profile slot
        (save_profile slot none small_profile).0
        (codes "shop")
        (codes "deployment-web")
      ≡ found (some p))
    × SameProfile small_profile p
unfolding save_profile upsert after_write write_status copy_status set_entry to_unstructured
    lookup_key text_eq
get_profile-save_profile_example =
    get_profile-save_profile slot slot-IsServer small_profile none
      (save_profile slot none small_profile).0 refl

-- A whole number of seconds is stored as an int64 and read as the float64 it was.
stored_window : json_value {F = Fixed} (number (decimal 3600 0)) ≡ whole (pos 3600)
unfolding json_value
stored_window = refl

read_window :
    nested_float
      (json_entries {F = Fixed} (entry (codes "w") (number (decimal 3600 0)) no_entry))
      (codes "w")
    ≡ decimal 3600 0
unfolding json_value nested_float lookup_key text_eq
read_window = refl
