-- ===== src/Marketing/Price/Quotes.antt =====
-- The price lists of `resolve_sku_price_state`, described candidate by candidate.
use pangu_sales_manager.Base.{
  ℤ, eq_ℤ, positive, Bool, true, ◌&&◌, ◌||◌, List, [], ◌∷◌, map, any, ◌≡◌, refl, ap, ◌∙◌, arith,
}
use pangu_sales_manager.Marketing.Ids.{contains}
use pangu_sales_manager.Marketing.Ids.Laws.{
  contains-unique_sorted, contains-keep, unique_sorted-IsAscending, IsAscending,
}
use pangu_sales_manager.Marketing.Price.{
  SkuActivityPricePoint, price_of, unique_positive_prices, selected_by,
}

-- Some candidate quotes the positive price `v`, as its activity price or as its daily price.
abbrev pub quotes : Bool → List SkuActivityPricePoint → ℤ → Bool
quotes activity candidates v = any (λ c. eq_ℤ (price_of activity c) v) candidates && positive v

-- Some candidate of the enrolment `e` quotes the activity price `v`.
abbrev pub quotes_under : ℤ → List SkuActivityPricePoint → ℤ → Bool
quotes_under e candidates v =
    any (λ c. eq_ℤ c.enroll_id e && eq_ℤ c.activity_price v) candidates && positive v

contains-map_price :
    (f : SkuActivityPricePoint → ℤ) (candidates : List SkuActivityPricePoint) (v : ℤ)
    → contains (map f candidates) v ≡ any (λ c. eq_ℤ (f c) v) candidates
unfolding contains
contains-map_price f [] v = refl
contains-map_price f (c ∷ cs) v = ap (λ b. eq_ℤ (f c) v || b) (contains-map_price f cs v)

pub contains-unique_positive_prices :
    (activity : Bool) (candidates : List SkuActivityPricePoint) (v : ℤ)
    → contains (unique_positive_prices candidates activity) v ≡ quotes activity candidates v
unfolding unique_positive_prices
contains-unique_positive_prices activity candidates v =
    contains-unique_sorted _ v
    ∙ contains-keep positive (map (price_of activity) candidates) v
    ∙ ap (λ b. b && positive v) (contains-map_price (price_of activity) candidates v)

pub unique_positive_prices-IsAscending :
    (candidates : List SkuActivityPricePoint) (activity : Bool)
    → IsAscending (unique_positive_prices candidates activity)
unfolding unique_positive_prices
unique_positive_prices-IsAscending candidates activity = unique_sorted-IsAscending _

any-selected :
    (e v : ℤ) (candidates : List SkuActivityPricePoint)
    → any (λ c. eq_ℤ c.activity_price v) (selected_by e candidates)
      ≡ any (λ c. eq_ℤ c.enroll_id e && eq_ℤ c.activity_price v) candidates
unfolding selected_by
any-selected e v [] = refl
any-selected e v (c ∷ cs) = ground (arith, any-selected e v cs)

pub contains-selected_prices :
    (e : ℤ) (candidates : List SkuActivityPricePoint) (v : ℤ)
    → contains (unique_positive_prices (selected_by e candidates) true) v
      ≡ quotes_under e candidates v
contains-selected_prices e candidates v =
    contains-unique_positive_prices true (selected_by e candidates) v
    ∙ ap (λ b. b && positive v) (any-selected e v candidates)
