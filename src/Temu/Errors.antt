-- ===== src/Temu/Errors.antt =====
-- The errors of internal/temu/client.go.
use pangu_sales_manager.Base.{
  ℤ, pos, eq_ℤ, String, Text, text_eq, Bool, false, ◌||◌, map, Option, none, some, codes, to_lower,
  trim_space, contains_text,
}

-- `Cause` is left out: nothing that is modelled reads it.
pub record ApiError : Type 0 where
  pub api_type : Text
  pub status : ℤ
  pub code : Text
  pub message : Text
  pub temporary : Bool

-- An error value: what `Error()` returns, and the `*APIError` that `errors.As` finds in it.
pub record RequestError : Type 0 where
  pub text : String
  pub api_error : Option ApiError

unfoldable pub is_rate_limited : ApiError → Bool
unfolding to_lower trim_space contains_text text_eq
is_rate_limited e =
    let message = map to_lower (trim_space e.message) in
    text_eq e.code (codes "4000004")
    || eq_ℤ e.status (pos 429)
    || contains_text (codes "too frequent requests") message
    || contains_text (codes "rate limit") message

unfoldable pub is_rate_limit_error : RequestError → Bool
unfolding is_rate_limited
is_rate_limit_error e = elim e.api_error [ none ↦ false | some a ↦ is_rate_limited a ]
