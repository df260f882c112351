-- ===== src/Tests/Recurring.antt =====
-- Concrete rows of recurring payments.
use misgeret.Base.{ℕ, ◌+◌, ◌*◌, ◌≡◌, arith, pos, neg, false, none, some, List, [], ◌∷◌, All}
use misgeret.Text.{Text}
use misgeret.Calendar.{Day, days_in_month}
use misgeret.Calendar.Windows.{IsDate}
use misgeret.Txns.{completed}
use misgeret.Tests.Txns.{row_of, day_of}
use misgeret.Recurring.{Placed, cadence_bands, min_of, add_months_clamped, refund_pairs}
use misgeret.Recurring.Groups.{best_band}
use misgeret.Recurring.Detection.{detect_recurring}
use misgeret.Recurring.Dates.{add_months_clamped-IsDate}
use misgeret.Recurring.Refunds.{AreRefunds, refund_pairs-AreRefunds}
use misgeret.Recurring.Sound.{IsSound, detect_recurring-IsSound}
use misgeret.Recurring.Bands.{IsBest, best_band-IsBest}

abbrev paid : ℕ → ℕ → ℕ → Placed
paid place days amount = record {
  place = place;
  txn = record {
    row = record (row_of "music service" 1 (neg (pos amount)) completed) {
      company = "visaCal";
      date = days * 86400000;
    };
    excluded = false;
    exclude_reason = none;
  };
}

abbrev subscription : List Placed
subscription = paid 0 3 4990 ∷ paid 1 33 4990 ∷ paid 2 64 4990 ∷ []

-- A purchase and its reversal three days later.
abbrev reversed : List Placed
reversed =
    paid 0 3 4990
    ∷ record {
      place = 1;
      txn = record {
        row = record (row_of "music service" 1 (pos 4990) completed) {
          company = "visaCal";
          date = 6 * 86400000;
        };
        excluded = false;
        exclude_reason = none;
      };
    }
    ∷ []

abbrev same_text : Text → Text
same_text s = s

abbrev end_of_january : Day
end_of_january = record { year = 2026; month = 1; day = 31 }

detect_recurring-IsSound_example :
    All
      (IsSound (some end_of_january))
      (detect_recurring same_text day_of subscription (some end_of_january))
detect_recurring-IsSound_example =
    detect_recurring-IsSound same_text day_of subscription (some end_of_january)

refund_pairs-AreRefunds_example : AreRefunds day_of (refund_pairs day_of reversed)
refund_pairs-AreRefunds_example = refund_pairs-AreRefunds day_of reversed

best_band-IsBest_example :
    IsBest (30 ∷ 31 ∷ 7 ∷ []) cadence_bands (best_band (30 ∷ 31 ∷ 7 ∷ []) cadence_bands none)
best_band-IsBest_example = best_band-IsBest (30 ∷ 31 ∷ 7 ∷ [])

-- One month after the end of January.
add_months_clamped-IsDate_example :
    IsDate (add_months_clamped end_of_january 1 31)
    × ((add_months_clamped end_of_january 1 31).year * 12
          + (add_months_clamped end_of_january 1 31).month
        ≡ end_of_january.year * 12 + end_of_january.month + 1)
    × ((add_months_clamped end_of_january 1 31).day
        ≡ min_of 31 (
            days_in_month
              (add_months_clamped end_of_january 1 31).year
              (add_months_clamped end_of_january 1 31).month))
unfolding days_in_month
add_months_clamped-IsDate_example =
    add_months_clamped-IsDate end_of_january 1 31 (omega arith) (omega arith)
