-- ===== src/NetWorth/Steps.antt =====
-- The value timelines, and the two sides of the balance sheet.
use misgeret.Base.{
  ◌≡◌, refl, ◌∙◌, ap, inl, inr, true, List, [], ◌∷◌, map, arith, ℤ, pos, neg, ◌+ℤ◌, ◌-ℤ◌, leb_ℤ,
  sum_of, sum, int_laws, +ℤ_assoc, Bool-cases,
}
use misgeret.Calendar.{Day, ltb_day, leb_day}
use misgeret.Holdings.{Side, asset, liability}
use misgeret.NetWorth.{
  Point, Cursor, advance_over, advance, total, step_totals, Side, asset, liability, Gross,
  add_balance, add_asset, add_balances, add_assets, gross_totals,
}

leb_day_trans : (a b c : Day) → leb_day a b ≡ true → leb_day b c ≡ true → leb_day a c ≡ true
unfolding leb_day ltb_day
leb_day_trans a b c h k = ground arith

advance-advance_over :
    (d e : Day) (p : Point) (qs : List Point)
    → leb_day d e ≡ true
    → advance e (advance_over d p qs) ≡ advance_over e p qs
unfolding advance advance_over
advance-advance_over d e p [] h = refl
advance-advance_over d e p (q ∷ qs) h = elim (Bool-cases (leb_day q.day d)) [
  | inl b ↦ rw (b, leb_day_trans q.day d e b h) (advance-advance_over d e q qs h)
  | inr b ↦ rw b
]

advance-advance :
    (d e : Day) → leb_day d e ≡ true → (c : Cursor) → advance e (advance d c) ≡ advance e c
unfolding advance
advance-advance d e h c = advance-advance_over d e c.current c.later h

map-advance :
    (d e : Day)
    → leb_day d e ≡ true
    → (cs : List Cursor) → map (advance e) (map (advance d) cs) ≡ map (advance e) cs
map-advance d e h [] = refl
map-advance d e h (c ∷ cs) = rw (advance-advance d e h c, map-advance d e h cs)

-- The days do not fall.
abbrev pub Ascending : Day → List Day → Type 0
Ascending d [] = Unit
Ascending d (e ∷ es) = (leb_day d e ≡ true) × Ascending e es

step_totals_after :
    (d : Day) (days : List Day) (cs : List Cursor)
    → Ascending d days
    → step_totals days (map (advance d) cs) ≡ map (λ day. total (map (advance day) cs)) days
unfolding step_totals
step_totals_after d [] cs h = refl
step_totals_after d (e ∷ days) cs h =
    rw (map-advance d e h.0 cs) (rw (step_totals_after e days cs h.1))

-- Over days that do not fall, the running cursors give each day the total that a fresh look at every
-- timeline from its start gives.
pub step_totals_lem :
    (d : Day) (days : List Day) (cs : List Cursor)
    → Ascending d days
    → step_totals (d ∷ days) cs ≡ map (λ day. total (map (advance day) cs)) (d ∷ days)
unfolding step_totals
step_totals_lem d days cs h = rw (step_totals_after d days cs h)

abbrev net : Gross → ℤ
net g = g.assets -ℤ g.liabilities

-- A holding's amount with the sign of its side.
abbrev pub signed : Side × ℤ → ℤ
signed (asset, a) = a
signed (liability, a) = neg a

net-add_balance : (g : Gross) (b : ℤ) → net (add_balance g b) ≡ net g +ℤ b
unfolding add_balance
net-add_balance g b = elim (Bool-cases (leb_ℤ (pos 0) b)) [
  | inl h ↦ rw h (omega int_laws)
  | inr h ↦ rw h (omega int_laws)
]

net-add_asset : (g : Gross) (a : Side × ℤ) → net (add_asset g a) ≡ net g +ℤ signed a
unfolding add_asset
net-add_asset g (asset, a) = omega int_laws
net-add_asset g (liability, a) = omega int_laws

net-add_balances : (g : Gross) (bs : List ℤ) → net (add_balances g bs) ≡ net g +ℤ sum bs
unfolding add_balances sum
net-add_balances g [] = omega int_laws
net-add_balances g (b ∷ bs) =
    net-add_balances (add_balance g b) bs
    ∙ ap (λ x. x +ℤ sum bs) (net-add_balance g b)
    ∙ +ℤ_assoc _ _ _

net-add_assets :
    (g : Gross) (xs : List (Side × ℤ)) → net (add_assets g xs) ≡ net g +ℤ sum_of signed xs
unfolding add_assets sum_of
net-add_assets g [] = omega int_laws
net-add_assets g (a ∷ xs) =
    net-add_assets (add_asset g a) xs
    ∙ ap (λ x. x +ℤ sum_of signed xs) (net-add_asset g a)
    ∙ +ℤ_assoc _ _ _

-- Assets less liabilities are the net worth: the sum of the account balances, whatever their signs,
-- and of the holdings with the sign of their side.
pub gross_totals-net :
    (balances : List ℤ) (assets : List (Side × ℤ))
    → (gross_totals balances assets).assets -ℤ (gross_totals balances assets).liabilities
      ≡ sum balances +ℤ sum_of signed assets
unfolding gross_totals
gross_totals-net balances assets =
    net-add_assets (add_balances (record { assets = pos 0; liabilities = pos 0 }) balances) assets
    ∙ ap (λ x. x +ℤ sum_of signed assets)
        (net-add_balances (record { assets = pos 0; liabilities = pos 0 }) balances
          ∙ start (sum balances))
  where
    start : (a : ℤ) → (pos 0 -ℤ pos 0) +ℤ a ≡ a
    start a = omega int_laws
