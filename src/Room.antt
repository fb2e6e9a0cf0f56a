-- ===== src/Room.antt =====
-- Video-conference rooms, pkg/room: participants, the rooms that hold them, the bus that carries
-- their events and the manager that holds the rooms.
pub mod Participant
pub mod State
pub mod Cases
pub mod Invariant
pub mod Membership
pub mod Accounting
pub mod Tracks
mod Tests
pub mod Bus
pub mod Manager
pub mod Registry
pub mod Fates
