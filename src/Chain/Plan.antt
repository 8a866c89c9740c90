-- ===== src/Chain/Plan.antt =====
-- The ranges of one tick: `plan` of src/chain/indexer.service.ts.
pub mod Coverage
use numera_backend.Prelude.{ℕ, zero, suc, ◌+◌, ◌-◌, ◌/◌, List, [], ◌∷◌, ltb, leb, if◌then◌else◌}

pub record Range : Type 0 where
  pub first : ℕ
  pub last : ℕ

abbrev pub max_log_requests_in_flight : ℕ
max_log_requests_in_flight = 14

-- `Math.max(1, Math.floor(14 / streams))`.
unfoldable pub max_ranges : ℕ → ℕ
max_ranges streams =
    let share = max_log_requests_in_flight / streams in if ltb share 1 then 1 else share

unfoldable pub range_end : ℕ → ℕ → ℕ → ℕ
range_end width safe_head cursor =
    if ltb (cursor + width - 1) safe_head then cursor + width - 1 else safe_head

-- The loop, `n` ranges before the limit.
unfoldable pub plan_from : ℕ → ℕ → ℕ → ℕ → List Range
plan_from width safe_head zero cursor = []
plan_from width safe_head (suc n) cursor =
    let end = range_end width safe_head cursor in
    let rest = plan_from width safe_head n (end + 1) in
    if leb cursor safe_head then record { first = cursor; last = end } ∷ rest else []

unfoldable pub plan : ℕ → ℕ → ℕ → ℕ → List Range
plan width streams safe_head from = plan_from width safe_head (max_ranges streams) from

-- `ranges[ranges.length - 1].to`.
unfoldable pub last_block : List Range → ℕ
last_block [] = 0
last_block (r ∷ []) = r.last
last_block (r ∷ q ∷ rs) = last_block (q ∷ rs)
