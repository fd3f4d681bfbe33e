-- ===== src/Common.antt =====
-- The names that the other modules share: the libraries', passed on, and those of the children.
pub mod Tests
pub mod Lists
pub mod Keep
pub mod Traverse
pub mod Text
pub mod Maps
pub mod Bits
pub mod Sets
pub mod Keys
