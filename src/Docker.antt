-- ===== src/Docker.antt =====
-- crates/lss-core/src/docker.rs: what `docker inspect` says of a container. The parser reads RFC 3339
-- stamps through the chrono crate and is not modelled.
use lss.Base.{ℕ, String, Bool, str_eq}

pub record ContainerState : Type 0 where
  pub name : String
  pub status : String
  pub restart_count : ℕ
  pub started_at : ℕ

unfoldable pub running : ContainerState → Bool
running c = str_eq c.status "running"
