-- ===== src/Profile/Tests.antt =====
-- A profile over `Fixed`, and the theorems at it.
use kubetidy.Base.{ℕ, ◌≡◌, refl, [], ◌∷◌}
use kubetidy.Base.Fixed.{Fixed, fixed_float}
use kubetidy.Base.Float.{decimal, nought}
use kubetidy.Base.Int.{pos}
use kubetidy.Base.Text.{codes}
use kubetidy.Profile.{
  MetricHistory, UsageProfile, is_name_rune, replace_runes, is_trimmed_rune, trim_left,
  drop_trimmed, trim_right, sanitize_dns, object_name, to_unstructured, from_unstructured,
}
use kubetidy.Profile.Naming.{IsDnsName, object_name-IsDnsName}
use kubetidy.Profile.RoundTrip.{from_unstructured-to_unstructured}

abbrev metric : ℕ → MetricHistory Fixed
metric v = record {
  avg = decimal v 0;
  p50 = decimal v 0;
  p95 = decimal v 0;
  p99 = nought;
  max_seen = decimal v 0;
  histogram = codes "e30=";
}

abbrev profile : UsageProfile Fixed
profile = record {
  name = codes "deployment-web";
  namespace = codes "shop";
  spec = record { target_ref = record { kind = codes "Deployment"; name = codes "web" } };
  status = record {
    observed_since = codes "2026-05-30T00:00:00Z";
    last_updated = [];
    sample_count = pos 12;
    window_seconds = decimal 3600 0;
    containers = record { name = codes "app"; cpu = metric 3; memory = metric 7 } ∷ [];
  };
}

from_unstructured-to_unstructured_example : from_unstructured (to_unstructured profile) ≡ profile
from_unstructured-to_unstructured_example = from_unstructured-to_unstructured profile

-- Runs outside the names' alphabet become dashes, which are cut at the ends.
named : object_name (λ s. s) (codes "_x") (codes "a/b.") ≡ codes "x-a-b"
unfolding object_name sanitize_dns replace_runes trim_left trim_right drop_trimmed is_trimmed_rune
    is_name_rune
named = refl

object_name-IsDnsName_example :
    IsDnsName (object_name (λ s. s) (codes "deployment") (codes "web_1"))
object_name-IsDnsName_example = object_name-IsDnsName (λ s. s) (codes "deployment") (codes "web_1")
