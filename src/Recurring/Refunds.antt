-- ===== src/Recurring/Refunds.antt =====
-- `refundPairRows` of server/src/recurring.ts: a purchase and its reversal.
use misgeret.Base.{
  ℕ, ◌≤◌, ◌≡◌, refl, sym, subst, arith, Bool, true, false, not, ◌&&◌, Option, none, some, List, [],
  ◌∷◌, ◌++◌, All, All-append, All-filter, All-filter_self, filter, find?, leb, if◌then◌else◌,
  Bool-cases, inl, inr, pos, eqb_ℤ, ◌+ℤ◌,
}
use misgeret.Base.Dict.{update}
use misgeret.Text.{Text, text_key, eq_text, eq_text_iff}
use misgeret.Calendar.{Day}
use misgeret.Recurring.{
  Placed, has_place, days_apart, merchant_of, is_card_row, by_merchant, is_credit, is_debit,
  reverses, note_pair, pair_credits, pair_groups, refund_pairs,
}

-- A completed card row with an amount, of a merchant.
InGroup : Text → Placed → Type 0
InGroup m r = (merchant_of r ≡ m) × (is_card_row r ≡ true)

Grouped : Text × List Placed → Type 0
Grouped e = All (InGroup e.0) e.1

update-Grouped :
    (r : Placed) (groups : List (Text × List Placed))
    → is_card_row r ≡ true
    → All Grouped groups
    → All Grouped (update (merchant_of r) (λ g. g ++ r ∷ []) [] groups)
unfolding update Grouped InGroup
update-Grouped r [] c h = (((refl, c), tt), tt)
update-Grouped r ((m, g) ∷ groups) c h = elim (Bool-cases (eq_text m (merchant_of r))) [
  | inl e ↦
      let q : merchant_of r ≡ m = sym ((eq_text_iff m (merchant_of r)).0 e) in
      rw e (
        All-append (InGroup m) g (r ∷ []) (unfold InGroup in h.0) (unfold InGroup in ((q, c), tt)),
        h.1,
      )
  | inr e ↦ rw e (h.0, update-Grouped r groups c h.1)
]

by_merchant-Grouped :
    (groups : List (Text × List Placed)) (rows : List Placed)
    → All Grouped groups
    → All Grouped (by_merchant groups rows)
unfolding by_merchant
by_merchant-Grouped groups [] h = h
by_merchant-Grouped groups (r ∷ rows) h = elim (Bool-cases (is_card_row r)) [
  | inl e ↦ rw e (
      by_merchant-Grouped (update (merchant_of r) (λ g. g ++ r ∷ []) [] groups) rows
        (update-Grouped r groups e h))
  | inr e ↦ rw e (by_merchant-Grouped groups rows h)
]

module _ (local_day : ℕ → Day) where
  -- Two completed card rows of one merchant, a credit and a debit of the same size, at most seven days
  -- apart.
  pub record IsRefund (p : Placed × Placed) : Type 0 where
    pub merchant : merchant_of p.0 ≡ merchant_of p.1
    pub cards : (is_card_row p.0 ≡ true) × (is_card_row p.1 ≡ true)
    pub signs : (is_credit p.0 ≡ true) × (is_debit p.1 ≡ true)
    pub size : eqb_ℤ (p.1.txn.amount +ℤ p.0.txn.amount) (pos 0) ≡ true
    pub near : days_apart (local_day p.1.txn.date) (local_day p.0.txn.date) ≤ 7

  abbrev DebitsOnce : List (Placed × Placed) → Type 0
  DebitsOnce [] = Unit
  DebitsOnce (p ∷ pairs) = (has_place p.1.place pairs ≡ false) × DebitsOnce pairs

  -- Each pair is a refund, and no debit is the refund of two credits.
  abbrev pub AreRefunds : List (Placed × Placed) → Type 0
  AreRefunds pairs = All IsRefund pairs × DebitsOnce pairs

  find?-reverses :
      (pairs : List (Placed × Placed)) (credit d : Placed) (debits : List Placed)
      (P : Placed → Type 0)
      → All P debits
      → find? (reverses local_day pairs credit) debits ≡ some d
      → P d × (reverses local_day pairs credit d ≡ true)
  unfolding find?
  find?-reverses pairs credit d [] P h e = cc
  find?-reverses pairs credit d (r ∷ debits) P h e =
      elim (Bool-cases (reverses local_day pairs credit r)) [
        | inl k ↦
            let q : r ≡ d = first (reverses local_day pairs credit r) k e in
            (subst P q h.0, subst (λ (x : Placed). reverses local_day pairs credit x ≡ true) q k)
        | inr k ↦
            find?-reverses pairs credit d debits P h.1
              (later (reverses local_day pairs credit r) k e)
      ]
    where
      rest : Option Placed
      rest = find? (reverses local_day pairs credit) debits

      first : (b : Bool) → b ≡ true → (if b then some r else rest) ≡ some d → r ≡ d
      first true k e = cc
      first false k e = cc

      later : (b : Bool) → b ≡ false → (if b then some r else rest) ≡ some d → rest ≡ some d
      later true k e = cc
      later false k e = e

  note_pair-AreRefunds :
      (m : Text) (pairs : List (Placed × Placed)) (credit : Placed) (debits : List Placed)
      (o : Option Placed)
      → find? (reverses local_day pairs credit) debits ≡ o
      → InGroup m credit
      → is_credit credit ≡ true
      → All (InGroup m) debits
      → All (λ d. is_debit d ≡ true) debits
      → AreRefunds pairs
      → AreRefunds (note_pair pairs credit o)
  unfolding note_pair
  note_pair-AreRefunds m pairs credit debits none e c k g s h = h
  note_pair-AreRefunds m pairs credit debits (some d) e c k g s h =
      let a = find?-reverses pairs credit d debits (InGroup m) g e in
      let b = find?-reverses pairs credit d debits (λ x. is_debit x ≡ true) s e in
      let r =
        parts (has_place d.place pairs) (eqb_ℤ (d.txn.amount +ℤ credit.txn.amount) (pos 0))
          (days_apart (local_day d.txn.date) (local_day credit.txn.date))
          (unfold reverses in a.1) in
      unfold InGroup in
      (
        ((
          record {
            merchant = ground arith;
            cards = (c.1, a.0.1);
            signs = (k, b.0);
            size = r.1;
            near = r.2;
          },
          h.0,
        )),
        ((r.0, h.1)),
      )
    where
      parts :
          (t s : Bool) (n : ℕ) → (not t && s && leb n 7) ≡ true → (t ≡ false) × (s ≡ true) × (n ≤ 7)
      parts t s n e = ground arith

  pair_credits-AreRefunds :
      (m : Text) (debits : List Placed) (pairs : List (Placed × Placed)) (credits : List Placed)
      → All (InGroup m) credits
      → All (λ c. is_credit c ≡ true) credits
      → All (InGroup m) debits
      → All (λ d. is_debit d ≡ true) debits
      → AreRefunds pairs
      → AreRefunds (pair_credits local_day debits pairs credits)
  unfolding pair_credits
  pair_credits-AreRefunds m debits pairs [] c k g s h = h
  pair_credits-AreRefunds m debits pairs (credit ∷ credits) c k g s h =
      pair_credits-AreRefunds m debits
        (note_pair pairs credit (find? (reverses local_day pairs credit) debits)) credits c.1 k.1 g
        s
        (note_pair-AreRefunds m pairs credit debits (find? (reverses local_day pairs credit) debits)
          refl c.0 k.0 g s h)

  pair_groups-AreRefunds :
      (pairs : List (Placed × Placed)) (groups : List (Text × List Placed))
      → All Grouped groups
      → AreRefunds pairs
      → AreRefunds (pair_groups local_day pairs groups)
  unfolding pair_groups
  pair_groups-AreRefunds pairs [] w h = h
  pair_groups-AreRefunds pairs ((m, g) ∷ groups) w h =
      pair_groups-AreRefunds (pair_credits local_day (filter is_debit g) pairs (filter is_credit g))
        groups w.1
        (pair_credits-AreRefunds m (filter is_debit g) pairs (filter is_credit g)
          (All-filter (InGroup m) is_credit g (unfold Grouped in w.0)) (All-filter_self is_credit g)
          (All-filter (InGroup m) is_debit g (unfold Grouped in w.0)) (All-filter_self is_debit g)
          h)

  -- Each pair that is taken out of the streams consists of two completed card rows of one merchant, a
  -- credit and a debit of the same size, at most seven days apart, and a debit is taken into one pair
  -- only.
  pub refund_pairs-AreRefunds : (rows : List Placed) → AreRefunds (refund_pairs local_day rows)
  unfolding refund_pairs
  refund_pairs-AreRefunds rows =
      pair_groups-AreRefunds [] (by_merchant [] rows) (by_merchant-Grouped [] rows tt) (tt, tt)
