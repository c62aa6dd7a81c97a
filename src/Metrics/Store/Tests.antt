-- ===== src/Metrics/Store/Tests.antt =====
-- The metric of the main program in the store of src/metrics/metrics_store.h.
use nimlib.Prelude.{◌≡◌, refl, none, some, [], ◌∷◌, ◌++◌}
use nimlib.Prelude.Int.{pos, negsuc}
use nimlib.Prelude.Text.{codes, decimal, digits_before}
use nimlib.Metrics.Store.{
  MetricsStore, empty_store, build, generate_stats_report, main_metric, print_rows, print_values,
}
use nimlib.Metrics.Store.Building.{main_report_early}

rows : print_rows ((codes "sum", pos 12 ∷ negsuc 2 ∷ []) ∷ []) ≡ codes "sum: 12, -3, " ++ 10 ∷ []
unfolding print_rows print_values decimal digits_before
rows = refl

main_report_early_example :
    (s : MetricsStore) × (build (main_metric 0 1) empty_store ≡ some s)
    × (generate_stats_report s (pos 7) ≡ none)
main_report_early_example = main_report_early 0 1 (pos 7)
