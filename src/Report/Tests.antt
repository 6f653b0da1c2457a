-- ===== src/Report/Tests.antt =====
-- What the report says of a few values.
use kubetidy.Base.{if◌then◌else◌, ◌*◌, ◌≡◌, refl, true}
use kubetidy.Base.Fixed.{Fixed, fixed_float}
use kubetidy.Base.Float.{decimal}
use kubetidy.Base.Int.{pos, eqb_ℤ}
use kubetidy.Base.Text.{codes, text_eq}
use kubetidy.Gitops.Texts.{join_texts, digit_groups}
use kubetidy.Report.{has_prefix, contains, bar_cells, score_bar}
use kubetidy.Report.Formats.{
  trim_zero, round_to_int, group_digits, group_thousands, format_dollars, trim_float, mem_shown,
}
use kubetidy.Wording.{Printer, concat_texts}

abbrev printer : Printer Fixed
printer = record {
  whole_number = λ n. if eqb_ℤ n (pos 7420) then codes "7420" else codes "5";
  fixed_digits = λ k x. codes "2.0";
}

bar : score_bar (pos 46) ≡ codes "▇▇▇▇▇░░░░░"
unfolding score_bar bar_cells concat_texts
bar = refl

grouped : format_dollars printer (decimal 7_420_3 1) ≡ codes "$7,420"
unfolding format_dollars round_to_int group_thousands group_digits digit_groups join_texts
grouped = refl

trimmed : mem_shown printer (pos (2 * (1024 * (1024 * 1024)))) ≡ codes "2Gi"
unfolding mem_shown trim_float trim_zero text_eq
trimmed = refl

rounded : mem_shown printer (pos 5_000_000) ≡ codes "5Mi"
unfolding mem_shown
rounded = refl

found_inside : contains (codes "checkout-api") (codes "out-a") ≡ true
unfolding contains has_prefix
found_inside = refl
