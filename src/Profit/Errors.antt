-- ===== src/Profit/Errors.antt =====
-- The errors of profit_import.go, one constructor for each message.
use pangu_sales_manager.Base.{ℕ, String, Text, Result}

pub data ImportError : Type 0 where
  missing_header : ImportError
  -- The column, the heading that is wanted and the one that is there.
  wrong_header : ℕ → String → Text → ImportError
  empty_value : String → ImportError
  not_number : String → Text → ImportError
  not_float : Text → ImportError
  not_integer : String → Text → ImportError
  bad_time : Text → ImportError
  bad_flag : Text → ImportError
  missing_po_no : ImportError
  row_error : ℕ → ImportError → ImportError
  sheet_error : Text → ImportError → ImportError
  unreadable_sheet : Text → Text → ImportError
  no_known_sheet : ImportError
  unreadable_workbook : Text → ImportError
  no_sheets : ImportError
  unknown_kind : String → ImportError
  undetected_kind : Text → ImportError
  unrecognized_kind : ImportError
  unreadable_zip : Text → ImportError
  unopened_entry : Text → Text → ImportError
  unread_entry : Text → Text → ImportError
  entry_error : Text → ImportError → ImportError
  empty_zip : ImportError
  unsupported_file : ImportError

abbrev pub Import : Type 0 → Type 0
Import A = Result ImportError A
