-- ===== src/Report/Formats.antt =====
-- internal/report/report.go: the formats of amounts, sizes and times.
use kubetidy.Base.{if◌then◌else◌, length, ◌*◌, ◌&&◌, [], ◌∷◌, ◌++◌}
use kubetidy.Base.Float.{Float64, ◌⊕◌, ◌⊘◌, less, less_eq, decimal, nought, of_int}
use kubetidy.Base.Int.{ℤ, pos, quot, ltb_ℤ, leb_ℤ, eqb_ℤ, add64, sub64}
use kubetidy.Base.Text.{Text, codes, text_eq}
use kubetidy.Gitops.Texts.{join_texts, digit_groups}
use kubetidy.Rightsizer.{hours}
use kubetidy.Wording.{Printer, minutes}

-- `strings.TrimSuffix(s, ".0")`
unfoldable pub trim_zero : Text → Text
unfolding text_eq
trim_zero [] = []
trim_zero (c ∷ s) = let rest = trim_zero s in if text_eq (c ∷ s) (codes ".0") then [] else c ∷ rest

module _ {F : Type 0} ⦃fl : Float64 F⦄ where
  -- `roundToInt`
  unfoldable pub round_to_int : F → ℤ
  unfolding sub64
  round_to_int v =
      if less v nought
      then sub64 (pos 0) (fl.truncate (fl.neg v ⊕ decimal 5 1))
      else fl.truncate (v ⊕ decimal 5 1)

module _ {F : Type 0} ⦃fl : Float64 F⦄ (p : Printer F) where
  -- The window of the report, which rounds by adding a half.
  unfoldable pub window_text : ℤ → Text
  unfolding hours minutes
  window_text d =
      let day : F = hours d ⊘ decimal 24 0 in
      if leb_ℤ d (pos 0)
      then codes "0"
      else if less_eq (decimal 24 0) (hours {F = F} d)
      then p.whole_number (fl.truncate (day ⊕ decimal 5 1)) ++ codes "d"
      else if less_eq (decimal 1 0) (hours {F = F} d)
      then p.whole_number (fl.truncate (hours d ⊕ decimal 5 1)) ++ codes "h"
      else if less_eq (decimal 1 0) (minutes {F = F} d)
      then p.whole_number (fl.truncate (minutes d ⊕ decimal 5 1)) ++ codes "m"
      else codes "<1m"

  -- `groupThousands`, of a number that is not negative, and of any.
  unfoldable pub group_digits : ℤ → Text
  unfolding digit_groups join_texts
  group_digits n = let s = p.whole_number n in join_texts (codes ",") (digit_groups (length s) s [])

  unfoldable pub group_thousands : ℤ → Text
  unfolding group_digits sub64
  group_thousands n =
      if ltb_ℤ n (pos 0) then codes "-" ++ group_digits (sub64 (pos 0) n) else group_digits n

  unfoldable pub format_dollars : F → Text
  unfolding group_thousands round_to_int
  format_dollars v = codes "$" ++ group_thousands (round_to_int v)

  unfoldable pub format_dollars_abs : F → Text
  unfolding group_thousands round_to_int sub64
  format_dollars_abs v =
      let n = round_to_int v in
      codes "$" ++ group_thousands (if ltb_ℤ n (pos 0) then sub64 (pos 0) n else n)

  unfoldable pub format_signed_dollars : F → Text
  unfolding group_thousands round_to_int sub64
  format_signed_dollars v =
      let n = round_to_int v in
      if ltb_ℤ n (pos 0)
      then codes "-$" ++ group_thousands (sub64 (pos 0) n)
      else codes "$" ++ group_thousands n

  -- `trimFloat`
  unfoldable pub trim_float : F → Text
  unfolding trim_zero
  trim_float x = trim_zero (p.fixed_digits 1 x)

  -- `formatMem`
  unfoldable pub mem_shown : ℤ → Text
  unfolding trim_float add64 quot
  mem_shown bytes =
      if eqb_ℤ bytes (pos 0)
      then codes "0"
      else if leb_ℤ (pos (1024 * 1024 * 1024)) bytes
      then trim_float (of_int bytes ⊘ decimal (1024 * 1024 * 1024) 0) ++ codes "Gi"
      else if leb_ℤ (pos (1024 * 1024)) bytes
      then p.whole_number (quot (add64 bytes (pos (512 * 1024))) (1024 * 1024)) ++ codes "Mi"
      else if leb_ℤ (pos 1024) bytes
      then trim_float (of_int bytes ⊘ decimal 1024 0) ++ codes "Ki"
      else p.whole_number bytes ++ codes "B"

  -- `humanizeMemory`
  unfoldable pub humanize_memory : ℤ → Text
  unfolding trim_float
  humanize_memory bytes =
      if eqb_ℤ bytes (pos 0)
      then codes "0"
      else if leb_ℤ (pos (1024 * 1024 * 1024)) bytes
      then trim_float (of_int bytes ⊘ decimal (1024 * 1024 * 1024) 0) ++ codes "Gi"
      else if leb_ℤ (pos (1024 * 1024)) bytes
      then trim_float (of_int bytes ⊘ decimal (1024 * 1024) 0) ++ codes "Mi"
      else if leb_ℤ (pos 1024) bytes
      then trim_float (of_int bytes ⊘ decimal 1024 0) ++ codes "Ki"
      else p.whole_number bytes ++ codes "B"

  -- `cpuMilli`
  unfoldable pub cpu_milli : F → Text
  cpu_milli v =
      if less nought v && less v (decimal 95 2)
      then p.fixed_digits 1 v ++ codes "m"
      else p.whole_number (fl.truncate (v ⊕ decimal 5 1)) ++ codes "m"

  unfoldable pub dist_cpu : F → Text
  unfolding cpu_milli
  dist_cpu v = if less_eq v nought then codes "—" else cpu_milli v

  unfoldable pub dist_mem : F → Text
  unfolding mem_shown
  dist_mem v = if less_eq v nought then codes "—" else mem_shown (fl.truncate (v ⊕ decimal 5 1))
