-- ===== src/SimdScan/Tests.antt =====
-- The laws of src/simd_scan.rs at concrete columns.
use run_alex_db.Common.{◌≡◌, List, [], ◌∷◌, true, false}
use run_alex_db.Common.Int.{ℤ, pos, negsuc, ltb_ℤ, eqb_ℤ}
use run_alex_db.Common.Dict.{Str, str}
use run_alex_db.SimdScan.{scan_eq_i64, scan_gt_i64, scan_lt_i64, scan_eq_str}
use run_alex_db.SimdScan.Laws.{
  scan_i64_paths, scan_eq_str_paths, contains-scan_i64, contains, test_at,
}

abbrev numbers : List ℤ
numbers = pos 5 ∷ negsuc 2 ∷ pos 9 ∷ pos 5 ∷ pos 0 ∷ pos 7 ∷ []

abbrev names : List Str
names = str "ann" ∷ str "bob" ∷ str "a-name-that-is-longer-than-32-bytes-is" ∷ []

scan_i64_paths_example :
    (scan_eq_i64 true numbers (pos 5) ≡ scan_eq_i64 false numbers (pos 5))
    × (scan_gt_i64 true numbers (pos 5) ≡ scan_gt_i64 false numbers (pos 5))
    × (scan_lt_i64 true numbers (pos 5) ≡ scan_lt_i64 false numbers (pos 5))
scan_i64_paths_example = scan_i64_paths numbers (pos 5)

scan_eq_str_paths_example : scan_eq_str true names (str "bob") ≡ scan_eq_str false names (str "bob")
scan_eq_str_paths_example = scan_eq_str_paths names (str "bob")

contains-scan_i64_example :
    (contains (scan_eq_i64 true numbers (pos 5)) 3 ≡ test_at (λ v. eqb_ℤ v (pos 5)) numbers 3)
    × (contains (scan_gt_i64 true numbers (pos 5)) 3 ≡ test_at (λ v. ltb_ℤ (pos 5) v) numbers 3)
    × (contains (scan_lt_i64 true numbers (pos 5)) 3 ≡ test_at (λ v. ltb_ℤ v (pos 5)) numbers 3)
contains-scan_i64_example = contains-scan_i64 true numbers (pos 5) 3
