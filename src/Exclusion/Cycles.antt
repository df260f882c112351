-- ===== src/Exclusion/Cycles.antt =====
-- The cycles of the cards that `flagExcluded` (server/src/companies.ts) meets.
use mathlib.Core.List.{Memᴰ}
use misgeret.Base.{◌≡◌, sym, subst, true, ◌||◌, List, [], ◌∷◌, ℤ, pos, arith, Bool-cases, inl, inr}
use misgeret.Base.Dict.{has_key, has_key-update, eqb_refl}
use misgeret.Txns.{TxnRow}
use misgeret.Exclusion.{
  Cycle, cycle_key, eq_cycle, add_to, cycle_of, is_card_row, note_card, card_net,
}

pub has_key-add_to :
    (j k : Cycle) (a : ℤ) (m : List (Cycle × ℤ))
    → has_key j (add_to k a m) ≡ (eq_cycle k j || has_key j m)
unfolding add_to
has_key-add_to j k a m = has_key-update j k _ (pos 0) m

keeps_card :
    (k : Cycle) (rows : List TxnRow) (m : List (Cycle × ℤ))
    → has_key k m ≡ true
    → has_key k (card_net m rows) ≡ true
unfolding card_net note_card
keeps_card k [] m h = h
keeps_card k (r ∷ rows) m h = keeps_card k rows (note_card r m) (elim (Bool-cases (is_card_row r)) [
  | inl e ↦ rw e (ground (arith, has_key-add_to k (cycle_of r.company r) r.amount m))
  | inr e ↦ rw e h
])

has_key-note_card :
    (s : TxnRow) (m : List (Cycle × ℤ))
    → is_card_row s ≡ true
    → has_key (cycle_of s.company s) (note_card s m) ≡ true
unfolding note_card
has_key-note_card s m c = rw c (
    ground (
      arith,
      has_key-add_to (cycle_of s.company s) (cycle_of s.company s) s.amount m,
      eqb_refl (cycle_of s.company s),
    ))

pub has_key-card_net :
    (r : TxnRow) (rows : List TxnRow) (m : List (Cycle × ℤ))
    → is_card_row r ≡ true
    → Memᴰ r rows
    → has_key (cycle_of r.company r) (card_net m rows) ≡ true
unfolding card_net note_card
has_key-card_net r [] m c x = elim x [ ]
has_key-card_net r (s ∷ rows) m c (Memᴰ.head e) =
    subst (λ z. has_key (cycle_of z.company z) (card_net (note_card s m) rows) ≡ true) (sym e)
      (keeps_card (cycle_of s.company s) rows (note_card s m)
        (has_key-note_card s m (subst (λ z. is_card_row z ≡ true) e c)))
has_key-card_net r (s ∷ rows) m c (Memᴰ.tail t) = has_key-card_net r rows (note_card s m) c t
