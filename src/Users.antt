-- ===== src/Users.antt =====
-- Who a document may belong to: services/userLookupService.js, utils/passportId.js and
-- utils/phoneNumber.js.
pub mod Row
pub mod PassportId
pub mod PhoneNumber
pub mod Lookup
pub use Row.*
