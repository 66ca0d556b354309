-- ===== src/Declared.antt =====
-- The state that the closed classes of bryllite-core, bryllite-common and apps declare in their
-- headers: the fields with their types, the enums and the callback interfaces. Their methods are
-- compiled elsewhere and not modelled. A std::map is the list of its entries, a hash or a key the
-- number that its bytes spell, a std::string a String. References to other objects, locks and the
-- objects of boost, leveldb and std::thread are left out.
pub mod Blocks
pub mod Schedule
pub mod Boxes
pub mod Round
pub mod Clock
pub mod Peers
pub mod Servers
