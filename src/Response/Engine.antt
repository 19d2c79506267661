-- ===== src/Response/Engine.antt =====
-- response/engine.go: the gated lifecycle of a recommendation.
-- The engine is one object behind a mutex, so its methods are run one after the other; each is an
-- action that changes the engine and returns, fails or panics. The collaborators that the program
-- takes as interfaces are the fields of `Environment`.
pub mod State
pub mod Slots
pub mod Methods
pub mod Phase
pub mod Sound
pub mod Recommended
pub mod Frame
pub mod Runs
pub mod History
pub mod Entries
pub mod Spent
pub mod Use
pub mod Once
pub mod Transitions
pub mod Lifecycle
