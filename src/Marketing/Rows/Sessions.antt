-- ===== src/Marketing/Rows/Sessions.antt =====
-- The rows of one SKU: sessions joined with prices.
use pangu_sales_manager.Base.{
  true, false, not, List, [], ◌∷◌, if_rule, keep, any, flat_map, All, In, here, All-append,
  All-flat_map, All-map_of, In-map, In-keep, In-flat_map, In-append_left, In-append_right, any-In,
  ◌≡◌, arith,
}
use pangu_sales_manager.Temu.{MarketingEnrollmentSession, MarketingEnrollmentPrice}
use pangu_sales_manager.Marketing.Rows.{pairs, session_rows, is_matched, or_base, rows_for_sessions}
use pangu_sales_manager.Marketing.RowData.{
  ActivitySnapshotRow, activity_row_with_session_and_price, zero_price, zero_session,
}

In-or_base :
    (base r : ActivitySnapshotRow) (rows : List ActivitySnapshotRow)
    → In r rows
    → In r (or_base base rows)
unfolding or_base
In-or_base base r [] m = elim m [ ]
In-or_base base r (x ∷ xs) m = m

All-or_base {κ} :
    (P : ActivitySnapshotRow → Type κ) (base : ActivitySnapshotRow)
    (rows : List ActivitySnapshotRow)
    → P base
    → All P rows
    → All P (or_base base rows)
unfolding or_base
All-or_base P base [] b h = (b, tt)
All-or_base P base (x ∷ xs) b h = h

-- What holds of the base row with any session and price, and without, holds of every row.
pub All-rows_for_sessions {κ} :
    (P : ActivitySnapshotRow → Type κ) (base : ActivitySnapshotRow)
    (sessions : List MarketingEnrollmentSession) (prices : List MarketingEnrollmentPrice)
    → P base
    → ((s : MarketingEnrollmentSession) (p : MarketingEnrollmentPrice)
        → P (activity_row_with_session_and_price base s p))
    → All P (rows_for_sessions base sessions prices)
unfolding rows_for_sessions session_rows
All-rows_for_sessions P base sessions prices b h = All-or_base P base _ b (
    All-append P _ _
      (All-flat_map P (session_rows base prices) sessions (λ s _.
        if_rule (All P) (any (pairs s) prices) (λ _. All-map_of P _ (keep (pairs s) prices) (h s))
          (λ _. (h s zero_price, tt))))
      (All-map_of P _ (keep (λ p. not (is_matched sessions p)) prices) (h zero_session)))

-- The row shows the session and the price as a pair; where one has no partner, the other stands
-- with the zero value.
abbrev pub Shows :
    ActivitySnapshotRow
    → MarketingEnrollmentSession
    → MarketingEnrollmentPrice
    → List ActivitySnapshotRow
    → Type 0
Shows base s p rows = In (activity_row_with_session_and_price base s p) rows

module _ (base : ActivitySnapshotRow) (sessions : List MarketingEnrollmentSession)
    (prices : List MarketingEnrollmentPrice) where
  In-pair_rows :
      (s : MarketingEnrollmentSession) (r : ActivitySnapshotRow)
      → In s sessions
      → In r (session_rows base prices s)
      → In r (rows_for_sessions base sessions prices)
  unfolding rows_for_sessions
  In-pair_rows s r m h =
      In-or_base base r _ (In-append_left _ (In-flat_map (session_rows base prices) m h))

  -- Each session and price that go together have their row.
  pub pair_shown :
      (s : MarketingEnrollmentSession) (p : MarketingEnrollmentPrice)
      → In s sessions
      → In p prices
      → pairs s p ≡ true
      → Shows base s p (rows_for_sessions base sessions prices)
  unfolding session_rows
  pair_shown s p m n h = In-pair_rows s _ m (
      if_rule (In (activity_row_with_session_and_price base s p)) (any (pairs s) prices)
        (λ _. In-map (activity_row_with_session_and_price base s) (In-keep (pairs s) n h))
        (λ q. absurd (ground (arith, any-In (pairs s) n h))))

  -- A session with no price of its site has a row without a price.
  pub session_shown :
      (s : MarketingEnrollmentSession)
      → In s sessions
      → any (pairs s) prices ≡ false
      → Shows base s zero_price (rows_for_sessions base sessions prices)
  unfolding session_rows
  session_shown s m h = In-pair_rows s _ m (rw (h, session_rows) here)

  -- A price with no session of its site has a row without a session.
  pub price_shown :
      (p : MarketingEnrollmentPrice)
      → In p prices
      → is_matched sessions p ≡ false
      → Shows base zero_session p (rows_for_sessions base sessions prices)
  unfolding rows_for_sessions
  price_shown p m h = In-or_base base _ _ (
      In-append_right (flat_map (session_rows base prices) sessions) (
        In-map (activity_row_with_session_and_price base zero_session)
          (In-keep (λ p. not (is_matched sessions p)) m (ground arith))))
