-- ===== src/Exclusion/Pairs.antt =====
-- The pairs of transfers between own accounts that `flagExcluded` takes out.
use misgeret.Base.{
  ◌≤◌, ◌≡◌, ◌≢◌, inl, inr, refl, Bool, true, false, not, ◌&&◌, ◌||◌, Option, none, some, List, [],
  ◌∷◌, subst, String, eq_iff, if◌then◌else◌, pos, neg, leb_ℤ, eqb_ℤ_eq, filter, find?, arith, All,
  All-filter_self, Bool-cases,
}
use misgeret.Base.Sort.{All-sort_by}
use misgeret.Text.{Text}
use misgeret.Txns.{Flagged}
use misgeret.Exclusion.{
  FlowClass, Entry, three_days, distance, is_paired, add_pair, by_date, is_match, is_candidate,
  pair_one, pair_all, pairs_of, is_transfer_like, places_from,
}

module _ {ℓ κ} {A : Type ℓ} (P : A → Type κ) where
  find-All :
      (q : A → Bool) (xs : List A) (x : A) → All P xs → find? q xs ≡ some x → P x × (q x ≡ true)
  unfolding find?
  find-All q [] x h e = cc
  find-All q (y ∷ ys) x h e = found (q y) refl e (find-All q ys x h.1)
    where
      found :
          (b : Bool)
          → q y ≡ b
          → (if b then some y else find? q ys) ≡ some x
          → (find? q ys ≡ some x → P x × (q x ≡ true))
          → P x × (q x ≡ true)
      found true c f ih =
          let same : y ≡ x = cc in (subst P same h.0, subst (λ z. q z ≡ true) same c)
      found false c f ih = ih f

module _ (upper : Text → Text) (connected : List String) (overrides : List (Text × FlowClass)) where
  -- The entry counted until then, and the user said nothing of it.
  abbrev pub IsCandidate : Entry → Type 0
  IsCandidate e = is_candidate upper connected overrides e ≡ true

  -- A debit and a credit of the same size between two accounts, at most three days apart, at least
  -- one of which reads like a transfer.
  abbrev pub IsTransfer : Entry × Entry → Type 0
  IsTransfer p =
      IsCandidate p.0
      × IsCandidate p.1
      × (leb_ℤ (pos 0) p.0.txn.amount ≡ false)
      × (p.1.txn.amount ≡ neg p.0.txn.amount)
      × (p.1.txn.account ≢ p.0.txn.account)
      × (distance p.1.txn.date p.0.txn.date ≤ three_days)
      × ((is_transfer_like upper p.0.txn.description || is_transfer_like upper p.1.txn.description)
          ≡ true)

  -- Every pair is a transfer, and no row stands in two pairs.
  abbrev pub IsMatching : List (Entry × Entry) → Type 0
  IsMatching [] = Unit
  IsMatching (p ∷ ps) =
      IsTransfer p
      × (is_paired p.0.place ps ≡ false)
      × (is_paired p.1.place ps ≡ false)
      × IsMatching ps

  is_match-IsTransfer :
      (d c : Entry)
      → IsCandidate d
      → IsCandidate c
      → leb_ℤ (pos 0) d.txn.amount ≡ false
      → is_match upper connected overrides d c ≡ true
      → IsTransfer (d, c)
  unfolding is_match
  is_match-IsTransfer d c v w n h = (
    v,
    w,
    n,
    ground (arith, eqb_ℤ_eq c.txn.amount (neg d.txn.amount)),
    ground (arith, eq_iff c.txn.account d.txn.account),
    ground arith,
    ground arith,
  )

  add_pair-IsMatching :
      (d : Entry) (candidates : List Entry) (paired : List (Entry × Entry)) (o : Option Entry)
      → IsCandidate d
      → All IsCandidate candidates
      → leb_ℤ (pos 0) d.txn.amount ≡ false
      → is_paired d.place paired ≡ false
      → find?
          (λ c. not (is_paired c.place paired) && is_match upper connected overrides d c)
          candidates
        ≡ o
      → IsMatching paired
      → IsMatching (add_pair d o paired)
  unfolding add_pair
  add_pair-IsMatching d candidates paired none v w n f e m = m
  add_pair-IsMatching d candidates paired (some c) v w n f e m =
      let (candidate, holds) = find-All IsCandidate _ candidates c w e in
      (is_match-IsTransfer d c v candidate n (ground arith), f, ground arith, m)

  pair_one-IsMatching :
      (d : Entry) (candidates : List Entry) (paired : List (Entry × Entry))
      → IsCandidate d
      → All IsCandidate candidates
      → IsMatching paired
      → IsMatching (pair_one upper connected overrides d candidates paired)
  unfolding pair_one
  pair_one-IsMatching d candidates paired v w m =
      elim (Bool-cases (leb_ℤ (pos 0) d.txn.amount || is_paired d.place paired)) [
        | inl e ↦ rw e m
        | inr e ↦
            rw e
              (add_pair-IsMatching d candidates paired _ v w (ground arith) (ground arith) refl m)
      ]

  pair_all-IsMatching :
      (es candidates : List Entry) (paired : List (Entry × Entry))
      → All IsCandidate es
      → All IsCandidate candidates
      → IsMatching paired
      → IsMatching (pair_all upper connected overrides es candidates paired)
  unfolding pair_all
  pair_all-IsMatching [] candidates paired v w m = m
  pair_all-IsMatching (e ∷ es) candidates paired v w m =
      pair_all-IsMatching es candidates (pair_one upper connected overrides e candidates paired) v.1
        w (pair_one-IsMatching e candidates paired v.0 w m)

  -- The pairs that are taken out as transfers: each is a debit and a credit of the same size between
  -- two accounts, at most three days apart, at least one of which reads like a transfer; both counted
  -- until then, and the user said nothing of either; and no row stands in two pairs.
  pub pairs_of-IsMatching :
      (flagged : List Flagged) → IsMatching (pairs_of upper connected overrides flagged)
  unfolding pairs_of
  pairs_of-IsMatching flagged =
      let test = is_candidate upper connected overrides in
      let found =
        All-sort_by IsCandidate by_date (filter test (places_from 0 flagged))
          (All-filter_self test (places_from 0 flagged)) in
      pair_all-IsMatching _ _ [] found found tt
