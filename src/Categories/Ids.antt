-- ===== src/Categories/Ids.antt =====
-- The categories of server/src/categories.ts; the Hebrew names are left out.
use misgeret.Base.{String}

pub data CategoryId : Type 0 where
  groceries restaurants transport housing bills health shopping leisure education insurance
        transfers fees income other :
      CategoryId

unfoldable pub id_of : CategoryId → String
id_of groceries = "groceries"
id_of restaurants = "restaurants"
id_of transport = "transport"
id_of housing = "housing"
id_of bills = "bills"
id_of health = "health"
id_of shopping = "shopping"
id_of leisure = "leisure"
id_of education = "education"
id_of insurance = "insurance"
id_of transfers = "transfers"
id_of fees = "fees"
id_of income = "income"
id_of other = "other"
