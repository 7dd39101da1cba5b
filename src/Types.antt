-- ===== src/Types.antt =====
-- extensions/swarm/src/types: the persisted state that the task graph's code reads and writes.
-- An optional property is an `Option`, but where absent, `[]`, `false` and `0` are read alike it is
-- the plain value. Properties that no modelled function touches are left out.
mod Time
mod Status
mod Agent
mod Task
mod Pool
pub use Time.*
unfoldable pub use Status.*
pub use Agent.*
pub use Task.*
pub use Pool.*
