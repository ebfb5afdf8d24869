-- ===== src/Model.antt =====
-- The data of the server (server/src/types): enumerations, models and the state of one server.
mod Enums
mod Records
mod Requests
mod State
pub use Enums.*
pub use Records.*
pub use Requests.*
pub use State.*
