-- ===== src/Usage/Prometheus/Queries.antt =====
-- internal/usage/prometheus.go: the texts of the queries.
use kubetidy.Base.{◌==◌, if◌then◌else◌, [], ◌∷◌}
use kubetidy.Base.Text.{Text, codes}
use kubetidy.Wording.{concat_texts}

unfoldable pub resolution : Text
resolution = codes "5m"

-- `promQLEscape`: every backslash twice.
unfoldable pub promql_escape : Text → Text
promql_escape [] = []
promql_escape (c ∷ s) = let rest = promql_escape s in if c == 92 then 92 ∷ 92 ∷ rest else c ∷ rest

-- What every query selects.
unfoldable pub selection : Text → Text → Text
unfolding concat_texts
selection namespace pods = concat_texts (
    codes "{namespace=\""
    ∷ namespace
    ∷ codes "\",pod=~\""
    ∷ pods
    ∷ codes "\",container!=\"\",container!=\"POD\"}["
    ∷ [])

-- The rate of the processor over the window, after the given function, in millicores.
unfoldable pub cpu_range : Text → Text → Text → Text → Text
unfolding concat_texts selection resolution
cpu_range before namespace pods window = concat_texts (
    before
    ∷ codes "rate(container_cpu_usage_seconds_total"
    ∷ selection namespace pods
    ∷ resolution
    ∷ codes "])["
    ∷ window
    ∷ codes ":"
    ∷ resolution
    ∷ codes "]) * 1000"
    ∷ [])

unfoldable pub memory_range : Text → Text → Text → Text → Text
unfolding concat_texts selection
memory_range before namespace pods window = concat_texts (
    before
    ∷ codes "container_memory_working_set_bytes"
    ∷ selection namespace pods
    ∷ window
    ∷ codes "])"
    ∷ [])

unfoldable pub cpu_max_query : Text → Text → Text → Text
unfolding cpu_range
cpu_max_query namespace pods window = cpu_range (codes "max_over_time(") namespace pods window

unfoldable pub cpu_avg_query : Text → Text → Text → Text
unfolding cpu_range
cpu_avg_query namespace pods window = cpu_range (codes "avg_over_time(") namespace pods window

unfoldable pub memory_max_query : Text → Text → Text → Text
unfolding memory_range
memory_max_query namespace pods window = memory_range (codes "max_over_time(") namespace pods window

unfoldable pub memory_avg_query : Text → Text → Text → Text
unfolding memory_range
memory_avg_query namespace pods window = memory_range (codes "avg_over_time(") namespace pods window
