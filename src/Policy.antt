-- ===== src/Policy.antt =====
-- crates/serctl_policy/src/lib.rs: policies that only narrow a base template, and typed intents.
mod Defs
mod Names
mod Paths
mod Compile
mod Evaluate
mod Steps
mod Bounds
mod Keys
mod Permits
mod Ceiling
mod Deny
mod Order
mod Reasons
mod Invariants
mod Slashes
mod Local
mod NormalForm
mod Tests
unfoldable pub use Defs.*
unfoldable pub use Names.*
unfoldable pub use Paths.*
unfoldable pub use Compile.*
unfoldable pub use Evaluate.*
