-- ===== src/Txns.antt =====
-- server/src/txns.ts: transactions as they are stored, the mapping of a scraped transaction, the
-- merge across connections, and the monthly views.
-- Amounts are whole agorot, hundredths of a shekel, as integers: on these `round2` is the identity.
-- An ISO date is the instant that it names, in milliseconds since 1970.
pub mod Mapping
pub mod Dedupe
pub mod Summary
pub mod Breakdown
use misgeret.Base.{
  ℕ, ◌≡◌, ◌↔◌, arith, eq_iff, Bool, true, false, not, ◌&&◌, ◌||◌, Option, none, some, List, [], ◌∷◌,
  String, str_eq, ltb, ◌==◌, if◌then◌else◌, ℤ, pos, eqb_ℤ, leb_ℤ, neg, ◌+ℤ◌, ◌-ℤ◌, filter, map,
  length,
}
use misgeret.Base.Dict.{Eq, get, update, string_eq}
use misgeret.Base.Sort.{sort_by}
use misgeret.Calendar.{Month, Day, month_of_day, eq_month, leb_month}
use misgeret.Calendar.Keys.{month_key}

pub data Status : Type 0 where
  completed pending : Status

pub data TxnType : Type 0 where
  normal installments : TxnType

pub data CategorySource : Type 0 where
  issuer rule user income auto : CategorySource

pub record TxnRow : Type 0 where
  pub key : String
  pub account : String
  pub date : ℕ
  pub month : Month
  pub processed_date : Option ℕ
  pub amount : ℤ
  pub original_amount : Option ℤ
  pub currency : Option String
  pub description : String
  pub memo : Option String
  pub status : Status
  pub company : String
  pub connection_id : ℕ
  pub type : TxnType
  pub installment_number : Option ℕ
  pub installment_total : Option ℕ
  pub charged_currency : Option String
  pub issuer_category : Option String
  pub category : Option String
  pub category_source : Option CategorySource

-- A field that the source has as `?: T | null` is an option: both are read by `??`.
pub record ScrapedTxn : Type 0 where
  pub identifier : Option String
  pub date : ℕ
  pub processed_date : Option ℕ
  pub original_amount : Option ℤ
  pub original_currency : Option String
  pub charged_amount : ℤ
  pub description : Option String
  pub memo : Option String
  pub status : String
  pub type : Option String
  pub installments : Option (ℕ × ℕ)
  pub charged_currency : Option String
  pub category : Option String

pub record MonthlySummary : Type 0 where
  pub month : Month
  pub income : ℤ
  pub expenses : ℤ
  pub net : ℤ

-- `ExcludeReason` and `FlaggedTxn` of server/src/companies.ts
pub data ExcludeReason : Type 0 where
  settlement transfer future partial savings manual : ExcludeReason

pub record Flagged : Type 0 where
  pub row : TxnRow
  pub open row use *
  pub excluded : Bool
  pub exclude_reason : Option ExcludeReason

unfoldable pub is_completed : Status → Bool
is_completed completed = true
is_completed pending = false

unfoldable pub or_empty : Option String → String
or_empty none = ""
or_empty (some s) = s

abbrev pub is_ils_name : String → Bool
is_ils_name c = str_eq "ILS" c || str_eq "NIS" c || str_eq "₪" c

unfoldable pub is_ils : Option String → Bool
is_ils none = true
is_ils (some c) = is_ils_name c

-- The price that stands in for the charge of a pending shekel purchase, or none.
unfoldable pub pending_amount : Bool → ℤ → Option ℤ → Option ℤ
pending_amount usable charged none = none
pending_amount usable charged (some a) =
    if usable && eqb_ℤ charged (pos 0) && not (eqb_ℤ a (pos 0)) then some a else none

unfoldable pub first_or : Option ℤ → ℤ → ℤ
first_or none a = a
first_or (some b) a = b

unfoldable pub charge_date : Bool → Option ℕ → ℕ → ℕ
charge_date true (some processed) date = processed
charge_date _ _ date = date

-- `local_date` is the day in Israel of an instant (the Intl tables), `hash` the SHA-256 text of the
-- joined fields.
module _ (local_date : ℕ → Day) (hash : String → ℕ → ℤ → String → Option String → String) where
  unfoldable pub month_of_instant : ℕ → Month
  unfolding month_of_day
  month_of_instant date = month_of_day (local_date date)

  unfoldable pub map_scraped_txn : String → ℕ → String → ScrapedTxn → Bool → TxnRow
  unfolding month_of_instant or_empty is_ils pending_amount first_or charge_date
  map_scraped_txn company connection_id account t charge_month = record {
    key = hash account t.date t.charged_amount (or_empty t.description) t.identifier;
    account = account;
    date = t.date;
    month = month_of_instant (charge_date charge_month t.processed_date t.date);
    processed_date = t.processed_date;
    amount =
        first_or
          (pending_amount (str_eq t.status "pending" && is_ils t.original_currency) t.charged_amount
            t.original_amount)
          t.charged_amount;
    original_amount = t.original_amount;
    currency = t.original_currency;
    description = or_empty t.description;
    memo = t.memo;
    status = if str_eq t.status "pending" then pending else completed;
    company = company;
    connection_id = connection_id;
    type = if str_eq (or_empty t.type) "installments" then installments else normal;
    installment_number = elim t.installments [ none ↦ none | some (n, total) ↦ some n ];
    installment_total = elim t.installments [ none ↦ none | some (n, total) ↦ some total ];
    charged_currency = t.charged_currency;
    issuer_category = t.category;
    category = none;
    category_source = none;
  }

unfoldable pub same_status : Status → Status → Bool
same_status completed completed = true
same_status pending pending = true
same_status _ _ = false

-- `contentKey`: the joined texts are equal exactly if all six parts are, as long as no account or
-- description holds the separator '|'.
pub record Content : Type 0 where
  pub company : String
  pub account : String
  pub date : ℕ
  pub amount : ℤ
  pub description : String
  pub status : Status

unfoldable pub content : TxnRow → Content
content r = record {
  company = r.company;
  account = r.account;
  date = r.date;
  amount = r.amount;
  description = r.description;
  status = r.status;
}

unfoldable pub same_content : Content → Content → Bool
unfolding same_status
same_content r s =
    str_eq r.company s.company
    && str_eq r.account s.account
    && r.date == s.date
    && eqb_ℤ r.amount s.amount
    && str_eq r.description s.description
    && same_status r.status s.status

pub same_content_iff : (r s : Content) → (same_content r s ≡ true) ↔ (r ≡ s)
unfolding same_content
same_content_iff r s = ground (
  arith,
  eq_iff r.company s.company,
  eq_iff r.account s.account,
  eq_iff r.description s.description,
)

instance abbrev pub content_key : Eq Content
content_key = record { eqb = same_content; eqb_iff = same_content_iff }

-- if (prev === undefined || r.connectionId < prev) minConn.set(k, r.connectionId);
unfoldable pub note_connection : Option ℕ → TxnRow → List (Content × ℕ) → List (Content × ℕ)
note_connection none r m = update (content r) (λ _. r.connection_id) r.connection_id m
note_connection (some prev) r m =
    if ltb r.connection_id prev
    then update (content r) (λ _. r.connection_id) r.connection_id m
    else m

unfoldable pub min_connections : List (Content × ℕ) → List TxnRow → List (Content × ℕ)
min_connections m [] = m
min_connections m (r ∷ rows) = min_connections (note_connection (get (content r) m) r m) rows

unfoldable pub is_connection : Option ℕ → ℕ → Bool
is_connection none c = false
is_connection (some d) c = d == c

unfoldable pub is_earliest : List (Content × ℕ) → TxnRow → Bool
unfolding is_connection
is_earliest m r = is_connection (get (content r) m) r.connection_id

unfoldable pub dedupe_across_connections : List TxnRow → List TxnRow
dedupe_across_connections rows =
    let kept = filter (is_earliest (min_connections [] rows)) rows in
    if length kept == length rows then rows else kept

-- The `{ income, expenses }` of one month.
pub record Totals : Type 0 where
  pub income : ℤ
  pub expenses : ℤ

abbrev pub no_totals : Totals
no_totals = record { income = pos 0; expenses = pos 0 }

unfoldable pub add_amount : ℤ → Totals → Totals
add_amount a t =
    if leb_ℤ (pos 0) a
    then record t { income = t.income +ℤ a }
    else record t { expenses = t.expenses +ℤ neg a }

unfoldable pub counts : Flagged → Bool
counts r = is_completed r.status && not r.excluded

unfoldable pub note_totals : Flagged → List (Month × Totals) → List (Month × Totals)
note_totals r m = if counts r then update r.month (add_amount r.amount) no_totals m else m

unfoldable pub totals_by_month : List (Month × Totals) → List Flagged → List (Month × Totals)
totals_by_month m [] = m
totals_by_month m (r ∷ rows) = totals_by_month (note_totals r m) rows

-- .sort(([a], [b]) => b.localeCompare(a)): the later month first
unfoldable pub later_first : Month × Totals → Month × Totals → Bool
unfolding leb_month
later_first a b = leb_month b.0 a.0

unfoldable pub summary_of : Month × Totals → MonthlySummary
summary_of (m, t) = record {
  month = m;
  income = t.income;
  expenses = t.expenses;
  net = t.income -ℤ t.expenses;
}

unfoldable pub to_monthly_summary : List Flagged → List MonthlySummary
to_monthly_summary rows = map summary_of (sort_by later_first (totals_by_month [] rows))

-- r.category ?? 'uncategorized'
unfoldable pub bucket_of : Option String → String
bucket_of none = "uncategorized"
bucket_of (some c) = c

unfoldable pub is_spending : Flagged → Bool
is_spending r = counts r && not (leb_ℤ (pos 0) r.amount)

unfoldable pub add_expense : Flagged → List (String × ℤ) → List (String × ℤ)
add_expense r = update (bucket_of r.category) (λ s. s +ℤ neg r.amount) (pos 0)

unfoldable pub note_expense :
    Flagged → List (Month × List (String × ℤ)) → List (Month × List (String × ℤ))
note_expense r m = if is_spending r then update r.month (add_expense r) [] m else m

unfoldable pub expenses_by_category :
    List (Month × List (String × ℤ)) → List Flagged → List (Month × List (String × ℤ))
expenses_by_category m [] = m
expenses_by_category m (r ∷ rows) = expenses_by_category (note_expense r m) rows

unfoldable pub larger_first : String × ℤ → String × ℤ → Bool
larger_first a b = leb_ℤ b.1 a.1

unfoldable pub to_category_breakdown : List Flagged → List (Month × List (String × ℤ))
to_category_breakdown rows =
    map (λ x. (x.0, sort_by larger_first x.1)) (expenses_by_category [] rows)
