-- ===== src/Types.antt =====
-- packages/types/src/index.ts: the data that the services share. A string union is a data type
-- with the union's words; an optional field is an `Option`.
mod Codes
mod Capabilities
mod Kinds
mod Statuses
mod Outcomes
mod Numbers
mod Mission
mod Records
mod Distributed
mod Execution
pub use Capabilities.*
pub use Kinds.*
pub use Statuses.*
pub use Outcomes.*
pub use Numbers.*
pub use Mission.*
pub use Records.*
pub use Distributed.*
pub use Execution.*
