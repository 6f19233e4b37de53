-- ===== src/Text.antt =====
-- Text as the code handles it: `boost::split`, and `atoi` and `std::to_string` of the standard library.
pub mod Split
pub mod Decimal
pub mod Atoi
