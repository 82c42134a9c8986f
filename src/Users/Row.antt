-- ===== src/Users/Row.antt =====
-- USER_LOOKUP_SELECT of services/userLookupService.js: a row of the users table. A DATE column is
-- the text of its calendar day.
use emlynk_wabot.Prelude.{Text, Option}

pub record User : Type 0 where
  pub passport_id : Text
  pub unique_id : Text
  pub whatsapp_number : Option Text
  pub first_name : Option Text
  pub other_name : Option Text
  pub date_of_birth : Option Text
  pub place_of_birth : Option Text
  pub passport_expiry_date : Option Text
