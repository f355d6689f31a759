-- ===== src/Gpu.antt =====
-- crates/lss-core/src/gpu.rs: the throttle bits that the alert rules read, and a sample of a GPU.
use Prim.Native.Nat.{bit_and}
use lss.Base.Float.{F64}
use lss.Base.{Option, ℕ, String, List, [], ◌∷◌, ◌≡◌, refl, Bool, not, ◌==◌, if◌then◌else◌}

abbrev pub throttle_sw_power_cap : ℕ
throttle_sw_power_cap = 0x4

abbrev pub throttle_hw_slowdown : ℕ
throttle_hw_slowdown = 0x8

abbrev pub throttle_sw_thermal : ℕ
throttle_sw_thermal = 0x20

abbrev pub throttle_hw_thermal : ℕ
throttle_hw_thermal = 0x40

abbrev pub throttle_hw_power_brake : ℕ
throttle_hw_power_brake = 0x80

-- 0x20 | 0x40
abbrev pub throttle_thermal_mask : ℕ
throttle_thermal_mask = 0x60

-- `mask & bits != 0`
unfoldable pub has_bits : ℕ → ℕ → Bool
has_bits mask bits = not (bit_and mask bits == 0)

flags_in : ℕ → List (ℕ × String) → List String
unfolding has_bits
flags_in mask [] = []
flags_in mask ((bit, name) ∷ rest) =
    let names = flags_in mask rest in if has_bits mask bit then name ∷ names else names

unfoldable pub throttle_flags : ℕ → List String
unfolding flags_in
throttle_flags mask = flags_in mask (
    (throttle_hw_thermal, "hw_thermal")
    ∷ (throttle_sw_thermal, "sw_thermal")
    ∷ (throttle_hw_slowdown, "hw_slowdown")
    ∷ (throttle_hw_power_brake, "hw_power_brake")
    ∷ (throttle_sw_power_cap, "sw_power_cap")
    ∷ [])

flags_test : throttle_flags 0x68 ≡ "hw_thermal" ∷ "sw_thermal" ∷ "hw_slowdown" ∷ []
unfolding throttle_flags
flags_test = refl

module _ (F : F64) where
  open F use {Float}

  pub record GpuSample : Type 0 where
    pub index : ℕ
    pub temp_c : Option Float
    pub power_w : Option Float
    pub power_limit_w : Option Float
    pub clock_mhz : Option Float
    pub util_pct : Option Float
    pub mem_used_mib : Option Float
    pub mem_total_mib : Option Float
    pub fan_pct : Option Float
    pub throttle_mask : ℕ
    pub mem_util_pct : Option Float
    pub mem_temp_c : Option Float
