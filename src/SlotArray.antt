-- ===== src/SlotArray.antt =====
-- slot_array.h: the slot vector and the payload blocks of one array, and the methods on them.
-- `slots_` and `payloads_` share memory in the source (a union). They are two families here, which
-- is exact as long as the used slots end before the used payload blocks begin.
pub mod Defs
pub mod Moves
pub mod Invariant
pub mod Slots
pub mod Payloads
pub mod Regions
pub mod Entries
