-- ===== src/Tests.antt =====
-- Concrete inputs for the theorems.
pub mod Machine
pub mod Handles
pub mod Judging
pub mod Steps
pub mod Data
pub mod Threads
pub mod Cells
pub mod Managers
pub mod Sockets
pub mod Verdicts
pub mod Pointers
pub mod Documents
pub mod Program
pub mod Delivery
