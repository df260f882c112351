-- ===== src/Exclusion/Rows.antt =====
-- `flagExcluded` flags the rows and leaves them as they are.
use misgeret.Base.{
  ℕ, ◌+◌, ◌≡◌, refl, ◌∙◌, ap, Option, none, some, List, [], ◌∷◌, map, String, Bool-cases, inl, inr,
}
use misgeret.Text.{Text}
use misgeret.Txns.{TxnRow, Flagged}
use misgeret.Exclusion.{
  FlowClass, internal, flow, Entry, is_settlement_of, cycle_of, mode_for, is_partial, is_savings,
  judge_flow, judge_as, judge, places_from, is_paired, mark_paired, flag_excluded, settle_as,
}

abbrev row_of : Flagged → TxnRow
row_of f = f.row

row_of-mark_paired :
    (paired : List (Entry × Entry)) (n : ℕ) (fs : List Flagged)
    → map row_of (mark_paired paired (places_from n fs)) ≡ map row_of fs
unfolding mark_paired places_from
row_of-mark_paired paired n [] = refl
row_of-mark_paired paired n (f ∷ fs) = elim (Bool-cases (is_paired n paired)) [
  | inl e ↦ rw e (ap (◌∷◌ f.row) (row_of-mark_paired paired (n + 1) fs))
  | inr e ↦ rw e (ap (◌∷◌ f.row) (row_of-mark_paired paired (n + 1) fs))
]

module _ (upper : Text → Text) (connected : List String) (overrides : List (Text × FlowClass)) where
  row_of-judge_flow :
      (o : Option FlowClass) (r : TxnRow) → row_of (judge_flow upper connected overrides o r) ≡ r
  unfolding judge_flow
  row_of-judge_flow (some internal) r = refl
  row_of-judge_flow (some flow) r = refl
  row_of-judge_flow none r = elim (Bool-cases (is_savings upper connected overrides r)) [
    | inl e ↦ rw e refl
    | inr e ↦ rw e refl
  ]

  row_of-judge_as :
      (o : Option String) (rows : List TxnRow) (r : TxnRow)
      → row_of (judge_as upper connected overrides o rows r) ≡ r
  unfolding judge_as
  row_of-judge_as none rows r = elim (Bool-cases (is_partial upper connected overrides rows r)) [
    | inl e ↦ rw e refl
    | inr e ↦ rw e (row_of-judge_flow _ r)
  ]
  row_of-judge_as (some c) rows r =
      elim (Bool-cases
        (is_settlement_of (mode_for upper connected overrides rows (cycle_of c r)) r.amount)) [
          | inl e ↦ rw e refl
          | inr e ↦ rw e refl
        ]

  row_of-judged :
      (all rows : List TxnRow) → map row_of (map (judge upper connected overrides all) rows) ≡ rows
  unfolding judge
  row_of-judged all [] = refl
  row_of-judged all (r ∷ rows) =
      rw (row_of-judge_as (settle_as upper connected overrides r) all r)
        (ap (◌∷◌ r) (row_of-judged all rows))

  -- Flagging keeps every row, in its place and as it was: only the flag and its reason are added.
  pub row-flag_excluded :
      (rows : List TxnRow)
      → map (λ (f : Flagged). f.row) (flag_excluded upper connected overrides rows) ≡ rows
  unfolding flag_excluded
  row-flag_excluded rows = row_of-mark_paired _ 0 _ ∙ row_of-judged rows rows
