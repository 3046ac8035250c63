-- ===== src/Config/Defaults/Settled.antt =====
-- The parts of a configuration that validateAndSetDefaults writes: an entry that is accepted is accepted again
-- as it was written.
pub mod Counts
pub mod Entries
