-- ===== src/Base.antt =====
-- The names that the other modules share: the libraries', passed on, Boolean tests on the native
-- numbers, Go strings as byte lists (Base/Text) and Go maps as association lists (Base/Dict).
pub mod Tests
pub mod Text
pub mod Dict
pub mod Int
pub mod Members
pub mod Sort
pub mod Arena
