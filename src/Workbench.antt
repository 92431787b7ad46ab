-- ===== src/Workbench.antt =====
-- `WorkbenchProvider` of playground-ui/src/features/workbench/workbench-context.tsx: its state, and
-- what the callbacks do to it.
pub mod State
pub mod Capture
pub mod Request
pub mod Session
pub mod Frame
pub mod Reload
pub mod Toasts
pub mod Flights
pub mod Clock
pub mod Unmount
pub mod Issued
pub mod Durable
