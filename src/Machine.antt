-- ===== src/Machine.antt =====
-- src/finishing_line/core/machine.py: the state machine, whole.
mod Results
mod Moves
mod Phases
mod Steps
mod Recovery
unfoldable pub use Results.*
unfoldable pub use Moves.*
unfoldable pub use Phases.*
unfoldable pub use Steps.*
unfoldable pub use Recovery.*
