-- ===== src/Jobs/Progress.antt =====
-- src/events.rs: the stages of a job and the percentages that they span.
use troute.Prelude.{ℕ, ◌+◌, ◌-◌, ◌*◌, ◌/◌, ◌≤◌, ◌<◌, ◌^◌, min, if◌then◌else◌, ltb, ◌==◌, arith}
use native.Mathlib.Nat.{mul-le-mul_left, min-le_right, div-le_of_le-mul, mul_comm}

pub data ProgressStage : Type 0 where
  accepted validating_request selecting_provider preparing_matrix fetching_travel_times :
      ProgressStage
  building_matrix generating_candidates optimizing_route selecting_best_candidate : ProgressStage
  scheduling validating_schedule finalizing_result : ProgressStage

-- The derived order is that of the declaration.
unfoldable pub stage_index : ProgressStage → ℕ
stage_index ProgressStage.accepted = 0
stage_index ProgressStage.validating_request = 1
stage_index ProgressStage.selecting_provider = 2
stage_index ProgressStage.preparing_matrix = 3
stage_index ProgressStage.fetching_travel_times = 4
stage_index ProgressStage.building_matrix = 5
stage_index ProgressStage.generating_candidates = 6
stage_index ProgressStage.optimizing_route = 7
stage_index ProgressStage.selecting_best_candidate = 8
stage_index ProgressStage.scheduling = 9
stage_index ProgressStage.validating_schedule = 10
stage_index ProgressStage.finalizing_result = 11

pub record ProgressRange : Type 0 where
  pub start : ℕ
  pub end : ℕ

abbrev pub point : ℕ → ProgressRange
point value = record { start = value; end = value }

saturating_mul64 : ℕ → ℕ → ℕ
saturating_mul64 a b = if ltb (a * b) (2 ^ 64) then a * b else 2 ^ 64 - 1

saturating_add8 : ℕ → ℕ → ℕ
saturating_add8 a b = if ltb (a + b) 256 then a + b else 255

-- The width is below 256, so the cast that `unwrap_or` takes keeps it.
unfoldable pub interpolate : ProgressRange → ℕ → ℕ → ℕ
unfolding saturating_mul64 saturating_add8
interpolate range completed total =
    if total == 0
    then range.start
    else let width = range.end - range.start in
      let share = saturating_mul64 width (min completed total) / total in
      saturating_add8 range.start (if ltb share 256 then share else width)

unfoldable pub stage_range : ProgressStage → ProgressRange
stage_range ProgressStage.accepted = point 0
stage_range ProgressStage.validating_request = point 5
stage_range ProgressStage.selecting_provider = point 10
stage_range ProgressStage.preparing_matrix = point 15
stage_range ProgressStage.fetching_travel_times = record { start = 20; end = 45 }
stage_range ProgressStage.building_matrix = record { start = 48; end = 52 }
stage_range ProgressStage.generating_candidates = record { start = 55; end = 65 }
stage_range ProgressStage.optimizing_route = record { start = 65; end = 80 }
stage_range ProgressStage.selecting_best_candidate = record { start = 82; end = 86 }
stage_range ProgressStage.scheduling = record { start = 88; end = 92 }
stage_range ProgressStage.validating_schedule = record { start = 94; end = 96 }
stage_range ProgressStage.finalizing_result = point 98

saturating_mul64-le : (a b : ℕ) → saturating_mul64 a b ≤ a * b
unfolding saturating_mul64
saturating_mul64-le a b = ground arith

share-le : (w c t : ℕ) → saturating_mul64 w (min c t) / t ≤ w
share-le w c t =
    let product : w * min c t ≤ w * t = mul-le-mul_left w (min-le_right c t) in
    div-le_of_le-mul t (omega (arith, saturating_mul64-le w (min c t), mul_comm w t))

-- An interpolated percentage lies in its range, for ranges of a `u8` and every count.
pub interpolate-bounds :
    (range : ProgressRange) (completed total : ℕ)
    → range.start ≤ range.end
    → range.end < 256
    → (range.start ≤ interpolate range completed total)
      × (interpolate range completed total ≤ range.end)
unfolding interpolate saturating_add8
interpolate-bounds range completed total h b =
    ground (arith, share-le (range.end - range.start) completed total)

stage_range-valid :
    (stage : ProgressStage)
    → ((stage_range stage).start ≤ (stage_range stage).end) × ((stage_range stage).end ≤ 98)
unfolding stage_range
stage_range-valid stage = ground arith

stage_range-ordered :
    (stage later : ProgressStage)
    → stage_index stage < stage_index later
    → (stage_range stage).end ≤ (stage_range later).start
unfolding stage_range stage_index
stage_range-ordered stage later h = ground arith

-- The percentages of a later stage are never below those of an earlier one, whatever their counts.
pub interpolate-stage :
    (stage later : ProgressStage) (completed total completed' total' : ℕ)
    → stage_index stage < stage_index later
    → interpolate (stage_range stage) completed total
      ≤ interpolate (stage_range later) completed' total'
interpolate-stage stage later c t c' t' h =
    let (valid, small) = stage_range-valid stage in
    let (valid', small') = stage_range-valid later in
    let (low, high) = interpolate-bounds (stage_range stage) c t valid (omega arith) in
    let (low', high') = interpolate-bounds (stage_range later) c' t' valid' (omega arith) in
    let ordered = stage_range-ordered stage later h in omega arith
