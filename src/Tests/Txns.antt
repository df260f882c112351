-- ===== src/Tests/Txns.antt =====
-- Concrete transactions.
use misgeret.Base.{
  ◌≡◌, ◌≢◌, false, none, some, List, [], ◌∷◌, ℕ, ℤ, pos, neg, negsuc, String, filter, sum_of, ◌/◌,
  ◌+◌,
}
use misgeret.Calendar.{Month, Day, eq_month}
use misgeret.Txns.{
  Status, completed, pending, normal, TxnRow, ScrapedTxn, MonthlySummary, Flagged,
  dedupe_across_connections, to_monthly_summary, to_category_breakdown,
}
use misgeret.Txns.Dedupe.{is_first, dedupe_across_connections_lem}
use misgeret.Txns.Summary.{only_if, income_in, expenses_in, to_monthly_summary_totals}
use misgeret.Txns.Breakdown.{breakdown-summary}

-- The days of January 2024, and the month of January.
abbrev pub day_of : ℕ → Day
day_of date = record { year = 2024; month = 1; day = date / 86400000 + 1 }

abbrev pub january : Month
january = record { year = 2024; month = 1 }

abbrev coffee : ScrapedTxn
coffee = record {
  identifier = none;
  date = 90000000;
  processed_date = none;
  original_amount = some (neg (pos 1800));
  original_currency = some "ILS";
  charged_amount = pos 0;
  description = some "coffee";
  memo = none;
  status = "pending";
  type = none;
  installments = none;
  charged_currency = none;
  category = none;
}

negative : negsuc 1799 ≢ pos 0
negative e = cc

-- A purchase (negative) or an income (positive) of January, through a connection.
abbrev pub row_of : String → ℕ → ℤ → Status → TxnRow
row_of description connection_id amount status = record {
  key = description;
  account = "123";
  date = 90000000;
  month = january;
  processed_date = none;
  amount = amount;
  original_amount = none;
  currency = none;
  description = description;
  memo = none;
  status = status;
  company = "leumi";
  connection_id = connection_id;
  type = normal;
  installment_number = none;
  installment_total = none;
  charged_currency = none;
  issuer_category = none;
  category = none;
  category_source = none;
}

-- The salary came through two connections.
abbrev merged : List TxnRow
merged =
    row_of "salary" 2 (pos 900000) completed
    ∷ row_of "rent" 1 (neg (pos 400000)) completed
    ∷ row_of "salary" 1 (pos 900000) completed
    ∷ []

dedupe_across_connections_lem_example :
    dedupe_across_connections merged ≡ filter (is_first merged) merged
dedupe_across_connections_lem_example = dedupe_across_connections_lem merged

abbrev pub flagged : TxnRow → Flagged
flagged r = record { row = r; excluded = false; exclude_reason = none }

abbrev pub january_rows : List Flagged
january_rows =
    flagged (row_of "salary" 1 (pos 900000) completed)
    ∷ flagged (row_of "rent" 1 (neg (pos 400000)) completed)
    ∷ flagged (row_of "coffee" 1 (neg (pos 1800)) pending)
    ∷ []

to_monthly_summary_totals_example :
    (sum_of
        (λ (s : MonthlySummary). only_if (eq_month s.month january) s.income)
        (to_monthly_summary january_rows)
      ≡ income_in january january_rows)
    × (sum_of
          (λ (s : MonthlySummary). only_if (eq_month s.month january) s.expenses)
          (to_monthly_summary january_rows)
        ≡ expenses_in january january_rows)
to_monthly_summary_totals_example = to_monthly_summary_totals january january_rows

breakdown-summary_example :
    sum_of
      (λ (x : Month × List (String × ℤ)). only_if (eq_month x.0 january) (sum_of (λ c. c.1) x.1))
      (to_category_breakdown january_rows)
    ≡ sum_of
        (λ (s : MonthlySummary). only_if (eq_month s.month january) s.expenses)
        (to_monthly_summary january_rows)
breakdown-summary_example = breakdown-summary january january_rows
