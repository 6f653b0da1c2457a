-- ===== src/Cost/Tests.antt =====
-- Prices over `Fixed`.
use kubetidy.Base.{ℕ, ◌*◌, ◌≡◌, refl, arith}
use kubetidy.Base.Fixed.{Fixed, fixed_float}
use kubetidy.Base.FixedLaws.{Fixed-IsIeee}
use kubetidy.Base.Float.{decimal, nought, ◌≼◌}
use kubetidy.Base.Int.{pos}
use kubetidy.Base.Text.{codes}
use kubetidy.Cost.{bytes_per_gib, non_negative, monthly_cost, monthly_savings}
use kubetidy.Cost.Signs.{monthly_savings_sign}
use kubetidy.Model.{ResourceSpec, ResourcePrice}

abbrev spec_of : ℕ → ℕ → ResourceSpec
spec_of cpu gib = record {
  requests = record { cpu_millicores = pos cpu; memory_bytes = pos (gib * bytes_per_gib) };
  limits = record { cpu_millicores = pos 0; memory_bytes = pos 0 };
}

abbrev node_price : ResourcePrice Fixed
node_price = record {
  cpu_core_month = decimal 24 0;
  mem_gib_month = decimal 3 0;
  source = codes "node";
}

-- half a core and one GiB, on two replicas
halved : monthly_savings (spec_of 1000 2) (spec_of 500 1) node_price (pos 2) ≡ decimal 30 0
unfolding monthly_savings monthly_cost non_negative
halved = refl

monthly_savings_sign_example :
    (nought ≼ monthly_savings (spec_of 1000 2) (spec_of 500 1) node_price (pos 3))
    × (monthly_savings (spec_of 500 1) (spec_of 1000 2) node_price (pos 3) ≼ nought)
unfolding monthly_savings monthly_cost non_negative
monthly_savings_sign_example =
    monthly_savings_sign Fixed-IsIeee (spec_of 1000 2) (spec_of 500 1) node_price (pos 3)
      (omega arith, omega arith) refl refl
