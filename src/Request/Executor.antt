-- ===== src/Request/Executor.antt =====
-- The pending requests of `NativeExecutor`, and how responses, cancellations, GOAWAY and closing settle
-- them. A method is one critical section under `e.mu` together with the sends and releases behind
-- it, which touch only requests that it took out of the map.
-- Connections, flow controllers and response channels are numbers. What a method does to them is
-- written at the end of `log`. Timers, contexts and the dial are the caller's steps.
mod State
mod Removal
mod Reader
mod Lifecycle
unfoldable pub use State.*
unfoldable pub use Removal.*
unfoldable pub use Reader.*
unfoldable pub use Lifecycle.*
