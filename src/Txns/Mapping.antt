-- ===== src/Txns/Mapping.antt =====
-- `mapScrapedTxn`: which amount a scraped transaction gets, and the month it is stored under.
use misgeret.Base.{
  ℕ, ◌≡◌, ◌≢◌, refl, Bool, true, not, ◌&&◌, Option, none, some, String, str_eq, arith, ℤ, pos,
  eqb_ℤ, Bool-cases, inl, inr,
}
use misgeret.Calendar.{Day}
use misgeret.Txns.{ScrapedTxn, TxnRow, map_scraped_txn, pending_amount, first_or, is_ils}

abbrev shown : Bool → ℤ → Option ℤ → ℤ
shown usable charged original = first_or (pending_amount usable charged original) charged

replaced :
    (usable : Bool) (charged : ℤ) (original : Option ℤ)
    → shown usable charged original ≢ charged
    → (usable ≡ true)
      × (charged ≡ pos 0)
      × (original ≡ some (shown usable charged original))
      × (shown usable charged original ≢ pos 0)
unfolding pending_amount first_or
replaced usable charged none h = absurd (h refl)
replaced usable charged (some a) h =
    elim (Bool-cases (usable && eqb_ℤ charged (pos 0) && not (eqb_ℤ a (pos 0)))) [
      | inl e ↦ rw e (ground arith, ground arith, refl, ground arith)
      | inr e ↦ absurd (h (rw e refl))
    ]

module _ (local_date : ℕ → Day) (hash : String → ℕ → ℤ → String → Option String → String)
    (company : String) (connection_id : ℕ) (account : String) (t : ScrapedTxn)
    (charge_month : Bool) where
  abbrev mapped : TxnRow
  mapped = map_scraped_txn local_date hash company connection_id account t charge_month

  -- The amount that is stored differs from the charged amount only for a pending shekel purchase
  -- that was charged nothing yet, and then it is the original amount, which is not zero.
  pub amount-map_scraped_txn :
      (mapped.amount ≢ t.charged_amount)
      → (str_eq t.status "pending" ≡ true)
        × (is_ils t.original_currency ≡ true)
        × (t.charged_amount ≡ pos 0)
        × (t.original_amount ≡ some mapped.amount)
        × (mapped.amount ≢ pos 0)
  unfolding map_scraped_txn pending_amount first_or
  amount-map_scraped_txn h =
      let (usable, free, priced, some_price) =
        replaced (str_eq t.status "pending" && is_ils t.original_currency) t.charged_amount
          t.original_amount h in
      (ground arith, ground arith, free, priced, some_price)
