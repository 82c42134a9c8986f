-- ===== src/Reconciliation/Fields.antt =====
-- services/fieldReconciliationService.js: FIELD_MAP and the results.
use emlynk_wabot.Prelude.{ℕ, Bool, true, false, Option, some, List, [], ◌∷◌, Text}
use emlynk_wabot.Users.{User}

-- The passport fields that are compared.
pub data FieldName : Type 0 where
  date_of_birth place_of_birth passport_expiry_date given_names surname : FieldName

-- The columns of users that are compared.
pub data Column : Type 0 where
  date_of_birth place_of_birth passport_expiry_date first_name other_name : Column

pub data FieldKind : Type 0 where
  date text name : FieldKind

pub record MapEntry : Type 0 where
  pub field : FieldName
  pub column : Column
  pub kind : FieldKind
  pub fillable : Bool

abbrev pub field_map : List MapEntry
field_map =
    record {
      field = FieldName.date_of_birth;
      column = Column.date_of_birth;
      kind = FieldKind.date;
      fillable = true;
    }
    ∷ record {
      field = FieldName.place_of_birth;
      column = Column.place_of_birth;
      kind = FieldKind.text;
      fillable = true;
    }
    ∷ record {
      field = FieldName.passport_expiry_date;
      column = Column.passport_expiry_date;
      kind = FieldKind.date;
      fillable = true;
    }
    ∷ record {
      field = FieldName.given_names;
      column = Column.first_name;
      kind = FieldKind.name;
      fillable = false;
    }
    ∷ record {
      field = FieldName.surname;
      column = Column.other_name;
      kind = FieldKind.name;
      fillable = true;
    }
    ∷ []

-- user[column]
abbrev pub column_value : User → Column → Option Text
column_value u Column.date_of_birth = u.date_of_birth
column_value u Column.place_of_birth = u.place_of_birth
column_value u Column.passport_expiry_date = u.passport_expiry_date
column_value u Column.first_name = u.first_name
column_value u Column.other_name = u.other_name

-- `data: { [column]: value }`
abbrev pub set_column : Column → Text → User → User
set_column Column.date_of_birth v u = record u { date_of_birth = some v }
set_column Column.place_of_birth v u = record u { place_of_birth = some v }
set_column Column.passport_expiry_date v u = record u { passport_expiry_date = some v }
set_column Column.first_name v u = record u { first_name = some v }
set_column Column.other_name v u = record u { other_name = some v }

-- FILLABLE_COLUMNS: the columns of the fillable entries
abbrev pub is_fillable : Column → Bool
is_fillable Column.first_name = false
is_fillable _ = true

-- RECONCILIATION_OUTCOME
pub data Outcome : Type 0 where
  match fill conflict low_confidence not_extracted record_missing : Outcome

pub record Entry : Type 0 where
  pub field : FieldName
  pub confidence : ℕ
  pub outcome : Outcome
