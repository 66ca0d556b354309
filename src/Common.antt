-- ===== src/Common.antt =====
-- bryllite-common: the operators on the bits of an enum, the singleton and the enums of the log.
pub mod Bits
pub mod Log
pub mod Singleton
pub mod Flags
