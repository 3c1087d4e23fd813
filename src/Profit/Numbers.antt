-- ===== src/Profit/Numbers.antt =====
-- profit_import.go: how the text of a cell is read as a number, a flag or a time.
use pangu_sales_manager.Base.{
  ℕ, zero, suc, ◌+◌, ◌-◌, ◌*◌, ◌^◌, ℤ, pos, negsuc, ◌+ℤ◌, String, Text, codes, Bool, true, false,
  ◌&&◌, ◌||◌, List, [], ◌∷◌, Option, none, some, ok, err, ◌>>=◌, if◌then◌else◌, ltb, leb, ◌==◌, any,
  text_eq, is_empty, trim_space, remove_char, equal_fold, contains_text,
}
use pangu_sales_manager.Marketing.State.{Time}
use pangu_sales_manager.Profit.Errors.{
  ImportError, Import, empty_value, not_number, not_float, not_integer, bad_time, bad_flag,
}

-- Floats and the calendar: strconv.ParseFloat, the conversions and the order of float64,
-- time.ParseInLocation and time.Date.
pub record Formats : Type 1 where
  pub Float : Type 0
  pub zero_float : Float
  pub parse_float : Text → Option Float
  pub lt_float : Float → Float → Bool
  pub mul_float : Float → Float → Float
  pub of_nat : ℕ → Float
  pub int64_of : Float → ℤ
  pub Location : Type 0
  pub fixed_zone : ℕ → Location
  -- The layout, the text and the location.
  pub parse_in_location : Text → Text → Location → Option Time
  -- The start of a day: year, month and day.
  pub date : ℕ → ℕ → ℕ → Location → Time

-- The decimal digits of a text, as a number.
unfoldable pub parse_digits : ℕ → Text → Option ℕ
parse_digits n [] = some n
parse_digits n (c ∷ cs) =
    let rest = parse_digits (n * 10 + (c - 48)) cs in if leb 48 c && leb c 57 then rest else none

unfoldable pub magnitude : Text → Option ℕ
unfolding parse_digits
magnitude [] = none
magnitude (c ∷ cs) = parse_digits 0 (c ∷ cs)

abbrev pub positive_int : Option ℕ → Option ℤ
positive_int none = none
positive_int (some n) = if ltb n (2 ^ 63) then some (pos n) else none

abbrev pub negative_int : Option ℕ → Option ℤ
negative_int none = none
negative_int (some zero) = some (pos 0)
negative_int (some (suc n)) = if ltb n (2 ^ 63) then some (negsuc n) else none

-- `strconv.ParseInt(s, 10, 64)`
unfoldable pub parse_int : Text → Option ℤ
unfolding magnitude
parse_int [] = none
parse_int (c ∷ cs) =
    if c == 45
    then negative_int (magnitude cs)
    else if c == 43
    then positive_int (magnitude cs)
    else positive_int (magnitude (c ∷ cs))

-- The value, or the error if there is none.
abbrev pub or_error : {A : Type 0} → ImportError → Option A → Import A
or_error e none = err e
or_error e (some a) = ok a

-- An empty text gives nothing, and another one what the parser makes of it.
abbrev pub optional : {A : Type 0} → Text → Import A → Import (Option A)
optional [] value = ok none
optional (c ∷ cs) value = do a ← value; ok (some a)

unfoldable pub parse_optional_bool : Text → Import (Option Bool)
unfolding text_eq trim_space
parse_optional_bool raw0 =
    let raw = trim_space raw0 in
    if is_empty raw
    then ok none
    else if any (λ s. text_eq raw (codes s)) ("是" ∷ "Y" ∷ "y" ∷ "true" ∷ "TRUE" ∷ "1" ∷ [])
    then ok (some true)
    else if any (λ s. text_eq raw (codes s)) ("否" ∷ "N" ∷ "n" ∷ "false" ∷ "FALSE" ∷ "0" ∷ [])
    then ok (some false)
    else err (bad_flag raw)

abbrev pub profit_time_layouts : List Text
profit_time_layouts =
    codes "2006-01-02 15:04:05.000"
    ∷ codes "2006-01-02 15:04:05.00"
    ∷ codes "2006-01-02 15:04:05.0"
    ∷ codes "2006-01-02 15:04:05"
    ∷ codes "2006-01-02 15:04"
    ∷ codes "2006-01-02"
    ∷ codes "2006-01-02T15:04:05Z07:00"
    ∷ []

module _ (F : Formats) where
  open F use {
    Float, zero_float, parse_float, lt_float, mul_float, of_nat, int64_of, Location,
    parse_in_location, date,
  }

  -- A number without its commas and the spaces around it.
  abbrev pub number_text : Text → Text
  unfolding trim_space remove_char
  number_text raw = trim_space (remove_char 44 raw)

  unfoldable pub parse_required_float : Text → String → Import Float
  unfolding trim_space remove_char
  parse_required_float raw0 name =
      let raw = number_text raw0 in
      if is_empty raw
      then err (empty_value name)
      else or_error (not_number name raw) (parse_float raw)

  unfoldable pub parse_optional_float : Text → Import (Option Float)
  unfolding trim_space remove_char
  parse_optional_float raw0 =
      let raw = number_text raw0 in optional raw (or_error (not_float raw) (parse_float raw))

  abbrev pub value_or_zero : Option Float → Float
  value_or_zero none = zero_float
  value_or_zero (some v) = v

  unfoldable pub parse_optional_float_or_zero : Text → Import Float
  unfolding parse_optional_float
  parse_optional_float_or_zero raw = do value ← parse_optional_float raw; ok (value_or_zero value)

  unfoldable pub parse_required_int64 : Text → String → Import ℤ
  unfolding trim_space remove_char contains_text parse_int
  parse_required_int64 raw0 name =
      let raw = number_text raw0 in
      if is_empty raw
      then err (empty_value name)
      else if contains_text (codes ".") raw
      then (or_error (not_integer name raw) (parse_float raw) >>= λ v. ok (int64_of v))
      else or_error (not_integer name raw) (parse_int raw)

  unfoldable pub parse_optional_int64 : Text → Import (Option ℤ)
  unfolding parse_required_int64 trim_space
  parse_optional_int64 raw0 =
      let raw = trim_space raw0 in optional raw (parse_required_int64 raw "数值")

  unfoldable pub parse_optional_int : Text → Import ℤ
  unfolding parse_required_int64 trim_space
  parse_optional_int raw0 =
      let raw = trim_space raw0 in
      if is_empty raw then ok (pos 0) else parse_required_int64 raw "数值"

  -- The first layout that fits.
  unfoldable pub first_layout : List Text → Text → Location → Option Time
  first_layout [] raw loc = none
  first_layout (layout ∷ layouts) raw loc = elim (parse_in_location layout raw loc) [
    | some t ↦ some t
    | none ↦ first_layout layouts raw loc
  ]

  -- A spreadsheet's day number: days since 30 December 1899, of 86,400 seconds.
  unfoldable pub serial_time : Float → Location → Time
  unfolding ◌+ℤ◌
  serial_time serial loc =
      date 1899 12 30 loc +ℤ int64_of (mul_float serial (of_nat 86400000000000))

  abbrev pub parse_serial : Text → Option Float → Location → Import (Option Time)
  unfolding serial_time
  parse_serial raw none loc = err (bad_time raw)
  parse_serial raw (some serial) loc =
      if lt_float (of_nat 20000) serial && lt_float serial (of_nat 80000)
      then ok (some (serial_time serial loc))
      else err (bad_time raw)

  unfoldable pub parse_profit_time : Text → Location → Import (Option Time)
  unfolding trim_space text_eq equal_fold first_layout serial_time
  parse_profit_time raw0 loc =
      let raw = trim_space raw0 in
      if is_empty raw
        || text_eq raw (codes "--")
        || text_eq raw (codes "-")
        || equal_fold raw (codes "null")
      then ok none
      else elim (first_layout profit_time_layouts raw loc) [
        | some t ↦ ok (some t)
        | none ↦ parse_serial raw (parse_float raw) loc
      ]
