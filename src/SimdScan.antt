-- ===== src/SimdScan.antt =====
-- src/simd_scan.rs: the hash of a query and the scans of a column. A vector register of four 64-bit lanes
-- is four integers, and the mask that `_mm256_movemask_epi8` gives is the number whose bytes are 0xff
-- for the lanes that matched; the rows scanned are the list of a column's values.
pub mod Laws
mod Tests
use Prim.Native.Nat.{bit_xor, bit_and}
use run_alex_db.Common.{
  ℕ, zero, suc, ◌+◌, ◌-◌, ◌*◌, ◌%◌, ◌^◌, List, [], ◌∷◌, ◌++◌, Bool, true, false,
}
use run_alex_db.Common.{ltb, leb, ◌==◌, if◌then◌else◌, ◌&&◌, not, length, take, drop, replicate}
use run_alex_db.Common.Bytes.{of_le_bytes}
use run_alex_db.Common.Int.{ℤ, ltb_ℤ, eqb_ℤ}
use run_alex_db.Common.Dict.{Str, str_eq}

-- The FNV-1a loop: `h ^= b; h = h.wrapping_mul(..)`.
fnv1a_from : ℕ → List ℕ → ℕ
fnv1a_from h [] = h
fnv1a_from h (b ∷ data') = fnv1a_from (bit_xor h b * 0x0000_0100_0000_01b3 % 2 ^ 64) data'

unfoldable pub fnv1a : List ℕ → ℕ
unfolding fnv1a_from
fnv1a data' = fnv1a_from 0xcbf2_9ce4_8422_2325 data'

module _ (mm_crc32_u64 : ℕ → ℕ → ℕ) where
  -- The two loops: eight bytes at a time while there are eight, then one at a time.
  crc32_loop : ℕ → ℕ → List ℕ → ℕ
  crc32_loop zero crc data' = crc
  crc32_loop (suc fuel) crc [] = crc
  crc32_loop (suc fuel) crc (b ∷ data') = elim (leb 8 (length (b ∷ data'))) [
    | true ↦
        crc32_loop fuel (mm_crc32_u64 crc (of_le_bytes (take 8 (b ∷ data')))) (drop 8 (b ∷ data'))
    | false ↦ crc32_loop fuel (mm_crc32_u64 crc b) data'
  ]

  -- Each round takes a byte at least, so the number of bytes is fuel enough.
  unfoldable pub crc32_sse42 : List ℕ → ℕ
  unfolding crc32_loop
  crc32_sse42 data' = 2 ^ 64 - 1 - crc32_loop (length data') (2 ^ 64 - 1) data'

  -- `is_x86_feature_detected!("sse4.2")` is an argument.
  unfoldable pub hash_query : Bool → List ℕ → ℕ
  unfolding crc32_sse42 fnv1a
  hash_query sse42 sql = if sse42 then crc32_sse42 sql else fnv1a sql

-- `iter().enumerate().filter(|(_, v)| keep(v)).map(|(i, _)| i).collect()`, counted from `i` on.
unfoldable pub scan_from {ℓ} : {A : Type ℓ} → (A → Bool) → ℕ → List A → List ℕ
scan_from test i [] = []
scan_from test i (v ∷ vs) =
    let rest = scan_from test (suc i) vs in if test v then i ∷ rest else rest

-- The movemask of a comparison of four lanes: eight ones for a lane that matched.
unfoldable pub movemask : Bool → Bool → Bool → Bool → ℕ
movemask a b c d =
    (if a then 0xff else 0)
    + (if b then 0xff * 2 ^ 8 else 0)
    + (if c then 0xff * 2 ^ 16 else 0)
    + (if d then 0xff * 2 ^ 24 else 0)

-- `if mask & bits != 0 { out.push(i) }`.
unfoldable pub push_if : ℕ → ℕ → ℕ → List ℕ → List ℕ
push_if mask bits i out = if bit_and mask bits == 0 then out else out ++ (i ∷ [])

-- The body of the vector loop, from the mask of its four lanes.
unfoldable pub push_lanes : ℕ → ℕ → List ℕ → List ℕ
unfolding push_if
push_lanes mask i out =
    let out1 = push_if mask 0x0000_00ff i out in
    let out2 = push_if mask 0x0000_ff00 (i + 1) out1 in
    let out3 = push_if mask 0x00ff_0000 (i + 2) out2 in
    if mask == 0 then out else push_if mask 0xff00_0000 (i + 3) out3

-- The scalar loop over what is left.
unfoldable pub scan_tail : (ℤ → Bool) → ℕ → List ℤ → List ℕ → List ℕ
scan_tail test i [] out = out
scan_tail test i (v ∷ vs) out = scan_tail test (suc i) vs (if test v then out ++ (i ∷ []) else out)

-- Both loops of the three AVX2 scans, which differ in the lane comparison alone: four rows at a time
-- while there are four, then the rest.
unfoldable pub scan_avx2 : (ℤ → Bool) → ℕ → List ℤ → List ℕ → List ℕ
unfolding scan_tail push_lanes movemask
scan_avx2 test i (a ∷ b ∷ c ∷ d ∷ rest) out =
    scan_avx2 test (i + 4) rest (push_lanes (movemask (test a) (test b) (test c) (test d)) i out)
scan_avx2 test i rest out = scan_tail test i rest out

unfoldable pub scan_eq_avx2 : List ℤ → ℤ → List ℕ
unfolding scan_avx2
scan_eq_avx2 data' target = scan_avx2 (λ v. eqb_ℤ v target) 0 data' []

unfoldable pub scan_gt_avx2 : List ℤ → ℤ → List ℕ
unfolding scan_avx2
scan_gt_avx2 data' target = scan_avx2 (λ v. ltb_ℤ target v) 0 data' []

unfoldable pub scan_lt_avx2 : List ℤ → ℤ → List ℕ
unfolding scan_avx2
scan_lt_avx2 data' target = scan_avx2 (λ v. ltb_ℤ v target) 0 data' []

-- `is_x86_feature_detected!("avx2")` is an argument of each scan.
unfoldable pub scan_eq_i64 : Bool → List ℤ → ℤ → List ℕ
scan_eq_i64 avx2 data' target =
    if avx2 then scan_eq_avx2 data' target else scan_from (λ v. eqb_ℤ v target) 0 data'

unfoldable pub scan_gt_i64 : Bool → List ℤ → ℤ → List ℕ
scan_gt_i64 avx2 data' target =
    if avx2 then scan_gt_avx2 data' target else scan_from (λ v. ltb_ℤ target v) 0 data'

unfoldable pub scan_lt_i64 : Bool → List ℤ → ℤ → List ℕ
scan_lt_i64 avx2 data' target =
    if avx2 then scan_lt_avx2 data' target else scan_from (λ v. ltb_ℤ v target) 0 data'

-- A string copied to the front of 32 zero bytes.
unfoldable pub padded32 : Str → List ℕ
padded32 s = s ++ replicate (32 - length s) 0

-- `_mm256_cmpeq_epi8` on the two buffers, with all 32 lanes set.
unfoldable pub scan_eq_str_avx2 : List Str → Str → List ℕ
unfolding scan_from padded32
scan_eq_str_avx2 data' target =
    scan_from (λ s. length s == length target && str_eq (padded32 s) (padded32 target)) 0 data'

unfoldable pub scan_eq_str : Bool → List Str → Str → List ℕ
scan_eq_str avx2 data' target =
    if avx2 && (not (length target == 0) && leb (length target) 32)
    then scan_eq_str_avx2 data' target
    else scan_from (λ s. str_eq s target) 0 data'

unfoldable pub starts_with : Str → Str → Bool
starts_with s [] = true
starts_with [] (p ∷ ps) = false
starts_with (c ∷ cs) (p ∷ ps) = c == p && starts_with cs ps

unfoldable pub scan_prefix_str : List Str → Str → List ℕ
unfolding scan_from starts_with
scan_prefix_str data' prefix = scan_from (λ s. starts_with s prefix) 0 data'
