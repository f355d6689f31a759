-- ===== src/Series/Points.antt =====
-- series.rs: sample_points, the numbers that one poll contributes to the series.
pub mod Engine
pub mod Sane
use lss.Base.{
  ℕ, ◌+◌, ◌-◌, String, Option, none, some, Bool, true, false, not, ◌&&◌, ◌||◌, List, [], ◌∷◌, ◌++◌,
  ltb, leb, if◌then◌else◌, any, concat, filter, length, show_ℕ, str_eq, unwrap_or, is_some,
}
use lss.Base.Float.{F64}
use lss.Base.Map.{get, string_ord}
use lss.Base.Sort.{sum_of}
use lss.Gate.{GateHealth, UpstreamLoad, this_upstream, upstream_series_id}
use lss.GateLog.Lane.{bench_user}
use lss.Gpu.{
  GpuSample, has_bits, throttle_thermal_mask, throttle_hw_slowdown, throttle_hw_power_brake,
  throttle_sw_power_cap,
}
use lss.Model.{Sample}
use lss.Users.{UserPoint}

-- `text.ends_with(suffix)`
unfoldable pub ends_with : String → String → Bool
ends_with suffix String.[] = str_eq suffix ""
ends_with suffix (String.◌∷◌ c s) =
    let rest = ends_with suffix s in str_eq (String.◌∷◌ c s) suffix || rest

module _ (F : F64) where
  open F use {Float, ratio, plus, over, is_finite}

  abbrev pub Points : Type 0
  Points = List (String × Float)

  -- the closure `put`
  unfoldable pub put : String → Float → Points
  put name v = if is_finite v then (name, v) ∷ [] else []

  abbrev pub bit : Bool → Float
  bit b = ratio (if b then 1 else 0) 1

  abbrev pub count_of : ℕ → Float
  count_of n = ratio n 1

  unfoldable pub put_some : String → Option Float → Points
  unfolding put
  put_some name none = []
  put_some name (some v) = put name v

  -- how full the budget of the trusted lane is
  unfoldable pub budget_points : ℕ → Option ℕ → Points
  unfolding put
  budget_points inflight none = []
  budget_points inflight (some budget) =
      if ltb 0 budget
      then put "budget_used_frac" (over (count_of inflight) (count_of budget))
      else []

  -- the load of the two lanes of the gateway
  unfoldable pub gate_points : GateHealth F → Points
  unfolding put budget_points
  gate_points g =
      put "inflight_public" (count_of g.public_lane.inflight_tokens)
      ++ (put "inflight_trusted" (count_of g.trusted.inflight_tokens)
          ++ (put "waiters_public" (count_of g.public_lane.waiters)
              ++ (put "waiters_trusted" (count_of g.trusted.waiters)
                  ++ budget_points g.trusted.inflight_tokens g.trusted.budget_tokens)))

  -- the users but the benchmark
  abbrev pub real_users : List UserPoint → List UserPoint
  real_users users = filter (λ (u : UserPoint). not (ends_with bench_user u.id)) users

  -- what a user has in flight on one upstream
  abbrev pub on_upstream : String → UserPoint → ℕ
  on_upstream up u = unwrap_or (get u.by_upstream up) 0

  unfoldable pub upstream_points : List UserPoint → Option String → String → Points
  unfolding put
  upstream_points real here up =
      let active = count_of (length (filter (λ (u : UserPoint). ltb 0 (on_upstream up u)) real)) in
      let inflight = count_of (sum_of (on_upstream up) real) in
      put (concat ("users_active." ∷ upstream_series_id up ∷ [])) active
      ++ (put (concat ("users_inflight." ∷ upstream_series_id up ∷ [])) inflight
          ++ (if str_eq (unwrap_or here "") up && is_some here
              then put "users_active_here" active ++ put "users_inflight_here" inflight
              else []))

  unfoldable pub upstreams_points : List UserPoint → Option String → List String → Points
  unfolding upstream_points
  upstreams_points real here [] = []
  upstreams_points real here (up ∷ ups) =
      upstream_points real here up ++ upstreams_points real here ups

  unfoldable pub users_points : Sample F → Option (GateHealth F) → Points
  unfolding put upstreams_points
  users_points cur none = []
  users_points cur (some g) =
      let real = real_users cur.users in
      put "users_active" (count_of (length (filter (λ (u : UserPoint). ltb 0 u.inflight) real)))
      ++ (put "users_inflight" (count_of (sum_of (λ (u : UserPoint). u.inflight) real))
          ++ upstreams_points real (this_upstream F g cur.model)
              (unwrap_or g.attributed_upstreams []))

  unfoldable pub user_points : List UserPoint → Points
  unfolding put
  user_points [] = []
  user_points (u ∷ users) =
      put (concat ("user_inflight." ∷ u.id ∷ [])) (count_of u.inflight)
      ++ (put (concat ("user_rpm." ∷ u.id ∷ [])) (count_of u.rpm) ++ user_points users)

  -- the closure `gput`
  abbrev gput : ℕ → String → Option Float → Points
  gput i what v = put_some (concat ("gpu" ∷ show_ℕ i ∷ "_" ∷ what ∷ [])) v

  unfoldable pub gpu_points : GpuSample F → Points
  unfolding put_some
  gpu_points g =
      gput g.index "temp_c" g.temp_c
      ++ (gput g.index "power_w" g.power_w
          ++ (gput g.index "clock_mhz" g.clock_mhz
              ++ (gput g.index "util_pct" g.util_pct
                  ++ (gput g.index "mem_used_mib" g.mem_used_mib
                      ++ (gput g.index "mem_util_pct" g.mem_util_pct
                          ++ (gput g.index "mem_temp_c" g.mem_temp_c
                              ++ (gput g.index "thr_thermal"
                                    (some (bit (has_bits g.throttle_mask throttle_thermal_mask)))
                                  ++ (gput g.index "thr_hw" (
                                        some (
                                          bit (
                                            has_bits g.throttle_mask
                                              (throttle_hw_slowdown + throttle_hw_power_brake))))
                                      ++ gput g.index "thr_power" (
                                          some (
                                            bit (
                                              has_bits g.throttle_mask
                                                throttle_sw_power_cap)))))))))))

  unfoldable pub gpus_points : List (GpuSample F) → Points
  unfolding gpu_points
  gpus_points [] = []
  gpus_points (g ∷ gpus) = gpu_points g ++ gpus_points gpus

  -- `*total_power.get_or_insert(0.0) += p`
  unfoldable pub total_power : Option Float → List (GpuSample F) → Option Float
  total_power total [] = total
  total_power total (g ∷ gpus) =
      total_power
        (elim g.power_w [ none ↦ total | some p ↦ some (plus (unwrap_or total (ratio 0 1)) p) ])
        gpus

  -- all that is not from the engine's metrics
  unfoldable pub other_points : Sample F → Points
  unfolding put put_some gate_points users_points user_points gpus_points total_power
  other_points cur =
      let gate_reqs = cur.log.public_lane.requests + cur.log.trusted_lane.requests in
      elim cur.gate [ none ↦ [] | some g ↦ gate_points g ]
      ++ (put "gate_up" (bit (is_some cur.gate))
          ++ (users_points cur cur.gate
              ++ (user_points cur.users
                  ++ ((if ltb 0 gate_reqs then put "gate_requests" (count_of gate_reqs) else [])
                      ++ (gpus_points cur.gpus
                          ++ put_some "gpu_power_total_w" (total_power none cur.gpus))))))
