-- ===== src/Model.antt =====
-- crates/lss-core/src/model.rs: one poll of the collector, as it is stored.
use lss.Base.{ℕ, Bool, String, Option, List}
use lss.Base.Float.{F64}
use lss.Docker.{ContainerState}
use lss.Gate.{GateHealth}
use lss.GateLog.Lane.{LogDelta}
use lss.Gpu.{GpuSample}
use lss.Prom.Extract.{ServeMetrics}
use lss.Users.{UserPoint}

module _ (F : F64) where
  pub record Sample : Type 0 where
    pub ts : ℕ
    pub serve_up : Bool
    pub model : Option String
    pub metrics : Option (ServeMetrics F)
    pub gpus_ok : Bool
    pub gpus : List (GpuSample F)
    pub serve_ct : Option ContainerState
    pub gate_ct : Option ContainerState
    pub gate : Option (GateHealth F)
    pub log : LogDelta F
    pub users : List UserPoint
    pub slots : ℕ
    pub engine : String
    pub not_reported : List String
    pub gate_absent : Bool
    pub gpu_source : String
