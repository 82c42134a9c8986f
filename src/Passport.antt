-- ===== src/Passport.antt =====
-- The machine-readable zone of a passport: utils/mrz.js and toIsoDate of utils/dateParsing.js.
pub mod Mrz
pub mod Parse
pub mod Digits
pub mod Printed
pub mod Line
