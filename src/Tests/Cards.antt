-- ===== src/Tests/Cards.antt =====
-- Concrete rows of card companies.
use misgeret.Base.{◌≡◌, false, true, some, none, List, [], ◌∷◌, pos, neg, String, Bool, sum_of}
use misgeret.Txns.{Flagged, completed, settlement}
use misgeret.Tests.Txns.{row_of, day_of, january}
use misgeret.Cards.{all_upcoming, Line}
use misgeret.Cards.Scheduled.{amount_at, large_part, scheduled_net, all_upcoming_lem}

abbrev one_after : String → String → Bool
one_after a b = true

-- A purchase that was charged on the second of January, and one that will be charged on the tenth.
abbrev settled_row : Flagged
settled_row = record {
  row = record (row_of "shoes" 1 (neg (pos 9000)) completed) {
    company = "visaCal";
    processed_date = some 86400000;
  };
  excluded = false;
  exclude_reason = none;
}

abbrev scheduled_row : Flagged
scheduled_row = record {
  row = record (row_of "books" 1 (neg (pos 4000)) completed) {
    company = "visaCal";
    processed_date = some 777600000;
  };
  excluded = false;
  exclude_reason = none;
}

abbrev debit_row : Flagged
debit_row = record {
  row = record (row_of "CAL" 2 (neg (pos 9000)) completed) { date = 86400000; month = january };
  excluded = true;
  exclude_reason = some settlement;
}

abbrev card_rows : List Flagged
card_rows = settled_row ∷ scheduled_row ∷ debit_row ∷ []

abbrev line : Line
line = (day_of 777600000, "visaCal")

all_upcoming_lem_example :
    sum_of (amount_at line) (all_upcoming day_of one_after (day_of 172800000) card_rows)
    ≡ large_part (neg (scheduled_net day_of (day_of 172800000) line card_rows))
all_upcoming_lem_example = all_upcoming_lem day_of one_after (day_of 172800000) card_rows line
