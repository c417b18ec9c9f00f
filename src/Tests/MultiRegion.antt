-- ===== src/Tests/MultiRegion.antt =====
-- The simulation of two regions at the sizes of the program's defaults.
use distributed_rate_limiter.Base.{[], arith, min, some, ◌+◌, ◌≡◌, ◌≤◌}
use distributed_rate_limiter.Base.Int.{pos}
use distributed_rate_limiter.MultiRegion.{
  Simulation, MultiRegionSummary, finished, summary_of, simulate_multi_region_limit,
}
use distributed_rate_limiter.MultiRegion.NoLag.{simulate_multi_region_limit_exact}
use distributed_rate_limiter.MultiRegion.Summary.{
  finished_decides_all, simulate_multi_region_limit_bounds,
}

abbrev end : Simulation
end = finished 10 180 8 8 20

finished_decides_all_example :
    (end.queue ≡ [])
    × (end.india_region.allowed_requests + end.india_region.blocked_requests ≡ 8)
    × (end.us_region.allowed_requests + end.us_region.blocked_requests ≡ 8)
finished_decides_all_example = finished_decides_all 10 180 8 8 20

abbrev summary : MultiRegionSummary
summary = summary_of 10 180 8 8 20 end

simulate_multi_region_limit_bounds_example :
    (simulate_multi_region_limit (pos 10) (pos 180) 8 8 20 ≡ some (summary, end.decisions))
    × (summary.india_allowed ≤ 10)
    × (summary.us_allowed ≤ 10)
    × (min 10 (8 + 8) ≤ summary.total_allowed)
    × (summary.stale_allowed_decisions ≡ summary.oversubscription)
    × (summary.oversubscription ≤ 10)
simulate_multi_region_limit_bounds_example =
    simulate_multi_region_limit_bounds 10 180 8 8 20 (omega arith)

simulate_multi_region_limit_exact_example :
    let s = summary_of 10 0 8 8 20 (finished 10 0 8 8 20) in
    (s.total_allowed ≡ min 10 (8 + 8)) × (s.oversubscription ≡ 0) × (s.stale_allowed_decisions ≡ 0)
simulate_multi_region_limit_exact_example =
    simulate_multi_region_limit_exact 10 8 8 20 (omega arith)
