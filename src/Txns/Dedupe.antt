-- ===== src/Txns/Dedupe.antt =====
-- `dedupeAcrossConnections` keeps, of the rows with one content, those of the earliest connection.
use mathlib.Core.List.{Memᴰ}
use misgeret.Base.{
  ℕ, ◌≤◌, ◌≡◌, refl, sym, ◌∙◌, ap, inl, inr, Bool, true, false, not, ◌&&◌, ◌||◌, Option, none, some,
  List, [], ◌∷◌, arith, ltb, leb, ◌==◌, if◌then◌else◌, filter, all, any, All-mem, filter_congr,
  filter_full, any-filter, any_mono, length, Bool-cases, ==_iff,
}
use misgeret.Base.Dict.{get, get-update, eqb_refl, apply_or}
use misgeret.Txns.{
  TxnRow, Content, content, same_content, same_content_iff, content_key, note_connection,
  min_connections, is_connection, is_earliest, dedupe_across_connections,
}

-- No row with the content of `r` came through an earlier connection.
unfoldable pub is_first : List TxnRow → TxnRow → Bool
is_first rows r =
    all (λ s. not (same_content (content s) (content r)) || leb r.connection_id s.connection_id)
      rows

lower : Option ℕ → Option ℕ → Option ℕ
lower none o = o
lower (some a) none = some a
lower (some a) (some b) = if ltb b a then some b else some a

-- The least connection of the rows with a content.
min_of : Content → List TxnRow → Option ℕ
min_of k [] = none
min_of k (s ∷ rows) =
    let rest = min_of k rows in
    if same_content (content s) k then lower (some s.connection_id) rest else rest

lower_assoc : (a b c : Option ℕ) → lower (lower a b) c ≡ lower a (lower b c)
unfolding lower
lower_assoc a b c = ground arith

lower-none : (o : Option ℕ) → lower o none ≡ o
unfolding lower
lower-none none = refl
lower-none (some a) = refl

-- At the content of the row itself the keys agree, so the entry that was read is the one replaced.
get-note_connection :
    (k : Content) (r : TxnRow) (m : List (Content × ℕ)) (o : Option ℕ)
    → get (content r) m ≡ o
    → get k (note_connection o r m)
      ≡ (if same_content (content r) k then lower (get k m) (some r.connection_id) else get k m)
unfolding note_connection lower apply_or
get-note_connection k r m none h = elim (Bool-cases (same_content (content r) k)) [
  | inl e ↦ rw (get-update, e, ← (same_content_iff (content r) k).0 e, h)
  | inr e ↦ rw (get-update, e)
]
get-note_connection k r m (some p) h = elim (Bool-cases (same_content (content r) k)) [
  | inl e ↦
      let same : get k m ≡ some p = rw (← (same_content_iff (content r) k).0 e) h in
      ground (arith, get-update k (content r) (λ _. r.connection_id) r.connection_id m)
  | inr e ↦ ground (arith, get-update k (content r) (λ _. r.connection_id) r.connection_id m)
]

get-min_connections :
    (k : Content) (m : List (Content × ℕ)) (rows : List TxnRow)
    → get k (min_connections m rows) ≡ lower (get k m) (min_of k rows)
unfolding min_connections min_of
get-min_connections k m [] = sym (lower-none (get k m))
get-min_connections k m (r ∷ rows) =
    let step = get-note_connection k r m (get (content r) m) refl in
    let ih = get-min_connections k (note_connection (get (content r) m) r m) rows in
    elim (Bool-cases (same_content (content r) k)) [
      | inl e ↦ rw (ih, step, e) (lower_assoc (get k m) (some r.connection_id) (min_of k rows))
      | inr e ↦ rw (ih, step, e)
    ]

-- Being first among the rows is being at or below the least connection of the content.
at_most : ℕ → Option ℕ → Bool
at_most c none = true
at_most c (some e) = leb c e

is_first-min_of :
    (r : TxnRow) (rows : List TxnRow)
    → is_first rows r ≡ at_most r.connection_id (min_of (content r) rows)
unfolding is_first all min_of lower at_most
is_first-min_of r [] = refl
is_first-min_of r (s ∷ rows) = ground (arith, is_first-min_of r rows)

abbrev HasBelow : Option ℕ → ℕ → Type 0
HasBelow o c = (e : ℕ) × (o ≡ some e) × (e ≤ c)

lower-below : (a : ℕ) (o : Option ℕ) → HasBelow (lower (some a) o) a
unfolding lower
lower-below a none = (a, refl, omega arith)
lower-below a (some b) = elim (Bool-cases (ltb b a)) [
  | inl h ↦ (b, ground arith, ground arith)
  | inr h ↦ (a, ground arith, omega arith)
]

lower-keeps : (a c : ℕ) (o : Option ℕ) → HasBelow o c → HasBelow (lower (some a) o) c
unfolding lower
lower-keeps a c o (e, p, q) = elim (Bool-cases (ltb e a)) [
  | inl h ↦ (e, ground arith, q)
  | inr h ↦ (a, ground arith, ground arith)
]

-- A row of the list has a least connection, at or below its own.
min_of-mem :
    (r : TxnRow) (rows : List TxnRow)
    → Memᴰ r rows
    → HasBelow (min_of (content r) rows) r.connection_id
unfolding min_of
min_of-mem r [] m = elim m [ ]
min_of-mem r (s ∷ rows) (Memᴰ.head p) =
    rw (← p, eqb_refl (content r)) (lower-below r.connection_id (min_of (content r) rows))
min_of-mem r (s ∷ rows) (Memᴰ.tail m) = elim (Bool-cases (same_content (content s) (content r))) [
  | inl e ↦ rw e (lower-keeps s.connection_id r.connection_id _ (min_of-mem r rows m))
  | inr e ↦ rw e (min_of-mem r rows m)
]

is_earliest-is_first :
    (rows : List TxnRow) (r : TxnRow)
    → Memᴰ r rows
    → is_earliest (min_connections [] rows) r ≡ is_first rows r
unfolding is_earliest is_connection lower get at_most
is_earliest-is_first rows r m =
    let (e, found, below) = min_of-mem r rows m in
    rw (is_first-min_of, get-min_connections, found) (ground arith)

-- The merge keeps exactly the rows for which no row with the same company, account, date, amount,
-- description and status came through an earlier connection, in their order.
pub dedupe_across_connections_lem :
    (rows : List TxnRow) → dedupe_across_connections rows ≡ filter (is_first rows) rows
unfolding dedupe_across_connections
dedupe_across_connections_lem rows =
    let kept = filter_congr _ _ rows (All-mem _ rows (is_earliest-is_first rows)) in
    elim (Bool-cases
      (length (filter (is_earliest (min_connections [] rows)) rows) == length rows)) [
        | inl e ↦ rw e (sym (filter_full _ rows ((==_iff _ _).0 e)) ∙ kept)
        | inr e ↦ rw e kept
      ]

-- A content, spelled as a test on rows.
abbrev pub has_content : Content → TxnRow → Bool
has_content k s = same_content (content s) k

any-min_of :
    (k : Content) (rows : List TxnRow) (e : ℕ)
    → min_of k rows ≡ some e
    → any (λ s. has_content k s && s.connection_id == e) rows ≡ true
unfolding min_of any lower
any-min_of k [] e h = cc
any-min_of k (s ∷ rows) e h = ground (arith, any-min_of k rows e)

lower-some : (a : ℕ) (o : Option ℕ) → (e : ℕ) × (lower (some a) o ≡ some e)
lower-some a o = let (e, p, _) = lower-below a o in (e, p)

min_of-any :
    (k : Content) (rows : List TxnRow)
    → any (has_content k) rows ≡ true
    → (e : ℕ) × (min_of k rows ≡ some e)
unfolding min_of any
min_of-any k [] h = cc
min_of-any k (s ∷ rows) h = elim (Bool-cases (same_content (content s) k)) [
  | inl e ↦ rw e (lower-some s.connection_id (min_of k rows))
  | inr e ↦ rw e (min_of-any k rows (ground arith))
]

-- A row of content `k` at the least connection of `k` is first.
least-is_first :
    (k : Content) (rows : List TxnRow) (e : ℕ)
    → min_of k rows ≡ some e
    → (s : TxnRow) → (has_content k s && s.connection_id == e) ≡ true
    → (has_content k s && is_first rows s) ≡ true
unfolding at_most
least-is_first k rows e h s p =
    let same : content s ≡ k = (same_content_iff (content s) k).0 (ground arith) in
    ground (arith, is_first-min_of s rows, ap (λ c. min_of c rows) same)

any-false :
    (p q : TxnRow → Bool) (xs : List TxnRow) → any p xs ≡ false → any (λ x. p x && q x) xs ≡ false
unfolding any
any-false p q [] h = refl
any-false p q (x ∷ xs) h = ground (arith, any-false p q xs)

-- No transaction is lost: a content stands among the kept rows exactly if it stands among the rows.
pub any-dedupe :
    (k : Content) (rows : List TxnRow)
    → any (has_content k) (dedupe_across_connections rows) ≡ any (has_content k) rows
any-dedupe k rows = elim (Bool-cases (any (has_content k) rows)) [
  | inl h ↦
      let (e, found) = min_of-any k rows h in
      rw (dedupe_across_connections_lem, any-filter, h)
        (any_mono _ _ rows (least-is_first k rows e found) (any-min_of k rows e found))
  | inr h ↦ rw (dedupe_across_connections_lem, any-filter, h) (any-false _ _ rows h)
]
