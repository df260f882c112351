-- ===== src/Tests/Categories.antt =====
-- Concrete rows to put into a category.
use misgeret.Base.{◌≢◌, refl, List, [], ◌∷◌, all, pos, neg}
use misgeret.Text.{codes}
use misgeret.Txns.{TxnRow, completed}
use misgeret.Tests.Txns.{row_of}
use misgeret.Tests.Exclusion.{upper}
use misgeret.Categories.{CategoryRule, best_rule, resolve_category}
use misgeret.Categories.Tiers.{IsByRule, resolve_category-IsByRule}
use misgeret.Categories.Signs.{resolve_category_outgoing}

abbrev shop : TxnRow
shop = row_of "SHOP SALARY" 1 (neg (pos 5000)) completed

abbrev rules : List CategoryRule
rules =
    record { id = 1; pattern = codes "SHOP"; category = "groceries" }
    ∷ record { id = 2; pattern = codes "SHOP SAL"; category = "shopping" }
    ∷ []

resolve_category-IsByRule_example :
    IsByRule (codes "SHOP SALARY") rules (resolve_category upper shop rules [] [])
resolve_category-IsByRule_example = resolve_category-IsByRule upper shop rules [] []

resolve_category_outgoing_example : (resolve_category upper shop [] [] []).category ≢ "income"
unfolding all best_rule neg
resolve_category_outgoing_example =
    resolve_category_outgoing upper shop [] [] [] refl refl refl refl
