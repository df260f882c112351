-- ===== src/Recurring/Bands.antt =====
-- The cadence that `detectRecurring` of server/src/recurring.ts chooses.
use mathlib.Core.List.{Memᴰ, append_assoc, append-nil}
use misgeret.Base.{
  ℕ, ◌+◌, ◌*◌, ◌/◌, ◌≤◌, ◌≡◌, refl, sym, ap, subst, arith, Bool, true, false, not, ◌||◌, Option,
  none, some, List, [], ◌∷◌, ◌++◌, All, All-append, filter, length, ltb, ◌==◌, Bool-cases, inl, inr,
}
use misgeret.Recurring.{Band, cadence_bands}
use misgeret.Recurring.Groups.{is_in_band, better_of, better_band, best_band}

-- A band fits if it holds a gap, and two thirds of the gaps.
unfoldable pub fits : List ℕ → Band → Bool
fits gaps band =
    let matching = filter (is_in_band band) gaps in
    not (length matching == 0 || ltb (length matching) ((2 * length gaps + 2) / 3))

abbrev pub count_in : List ℕ → Band → ℕ
count_in gaps band = length (filter (is_in_band band) gaps)

-- The choice among the bands seen so far: one that fits, with all its gaps, and no other one that fits
-- holds more of them; or none if none fits.
abbrev pub IsBest : List ℕ → List Band → Option (Band × List ℕ) → Type 0
IsBest gaps seen none = All (λ b. fits gaps b ≡ false) seen
IsBest gaps seen (some (band, matching)) =
    Memᴰ band seen
    × (matching ≡ filter (is_in_band band) gaps)
    × (fits gaps band ≡ true)
    × All (λ b. fits gaps b ≡ true → count_in gaps b ≤ count_in gaps band) seen

mem-append_left : (b : Band) (xs ys : List Band) → Memᴰ b xs → Memᴰ b (xs ++ ys)
mem-append_left b (x ∷ xs) ys (Memᴰ.head e) = Memᴰ.head e
mem-append_left b (x ∷ xs) ys (Memᴰ.tail m) = Memᴰ.tail (mem-append_left b xs ys m)
mem-append_left b [] ys m = elim m [ ]

mem-append_last : (b : Band) (xs : List Band) → Memᴰ b (xs ++ b ∷ [])
mem-append_last b [] = Memᴰ.head refl
mem-append_last b (x ∷ xs) = Memᴰ.tail (mem-append_last b xs)

module _ (gaps : List ℕ) where
  kept-IsBest :
      (band : Band) (seen : List Band) (best : Option (Band × List ℕ))
      → fits gaps band ≡ false
      → IsBest gaps seen best
      → IsBest gaps (seen ++ band ∷ []) best
  kept-IsBest band seen none f h = All-append (λ b. fits gaps b ≡ false) seen (band ∷ []) h (f, tt)
  kept-IsBest band seen (some (c, m)) f h = (
    mem-append_left c seen (band ∷ []) h.0,
    h.1,
    h.2,
    All-append (λ b. fits gaps b ≡ true → count_in gaps b ≤ count_in gaps c) seen (band ∷ []) h.3
        ((λ e. ground (arith, e, f)), tt),
  )

  none-vacuous :
      (n : ℕ) (seen : List Band)
      → All (λ b. fits gaps b ≡ false) seen
      → All (λ b. fits gaps b ≡ true → count_in gaps b ≤ n) seen
  none-vacuous n [] h = tt
  none-vacuous n (b ∷ seen) h = ((λ e. ground (arith, e, h.0)), none-vacuous n seen h.1)

  weaken :
      (n k : ℕ) (seen : List Band)
      → n ≤ k
      → All (λ b. fits gaps b ≡ true → count_in gaps b ≤ n) seen
      → All (λ b. fits gaps b ≡ true → count_in gaps b ≤ k) seen
  weaken n k [] l h = tt
  weaken n k (b ∷ seen) l h = ((λ e. omega (arith, h.0 e, l)), weaken n k seen l h.1)

  fresh-IsBest :
      (band : Band) (seen : List Band)
      → fits gaps band ≡ true
      → All (λ b. fits gaps b ≡ true → count_in gaps b ≤ count_in gaps band) seen
      → IsBest gaps (seen ++ band ∷ []) (some (band, filter (is_in_band band) gaps))
  fresh-IsBest band seen f h = (
    mem-append_last band seen,
    refl,
    f,
    All-append (λ b. fits gaps b ≡ true → count_in gaps b ≤ count_in gaps band) seen (band ∷ []) h
        ((λ e. omega arith), tt),
  )

  better_band-IsBest :
      (band : Band) (seen : List Band) (best : Option (Band × List ℕ))
      → IsBest gaps seen best
      → IsBest gaps (seen ++ band ∷ []) (better_band gaps band best)
  unfolding better_of
  better_band-IsBest band seen best h =
      elim (Bool-cases (
        length (filter (is_in_band band) gaps) == 0
        || ltb (length (filter (is_in_band band) gaps)) ((2 * length gaps + 2) / 3))) [
          | inl e ↦ unfold better_band in rw e (kept-IsBest band seen best (unfold fits in rw e) h)
          | inr e ↦ unfold better_band in rw e (chosen best (unfold fits in rw e) h)
        ]
    where
      chosen :
          (o : Option (Band × List ℕ))
          → fits gaps band ≡ true
          → IsBest gaps seen o
          → IsBest gaps (seen ++ band ∷ []) (better_of band (filter (is_in_band band) gaps) o)
      chosen none f k = fresh-IsBest band seen f (none-vacuous (count_in gaps band) seen k)
      chosen (some (c, m)) f k =
          elim (Bool-cases (ltb (length m) (length (filter (is_in_band band) gaps)))) [
            | inl e ↦ rw e (
                fresh-IsBest band seen f (
                  weaken (count_in gaps c) (count_in gaps band) seen
                    (ground (arith, ap (λ (l : List ℕ). length l) k.1)) k.3))
            | inr e ↦ rw e (
              mem-append_left c seen (band ∷ []) k.0,
              k.1,
              k.2,
              All-append (λ b. fits gaps b ≡ true → count_in gaps b ≤ count_in gaps c) seen
                  (band ∷ []) k.3 ((λ _. ground (arith, ap (λ (l : List ℕ). length l) k.1)), tt),
            )
          ]

  best_band_seen :
      (seen bands : List Band) (best : Option (Band × List ℕ))
      → IsBest gaps seen best
      → IsBest gaps (seen ++ bands) (best_band gaps bands best)
  unfolding best_band
  best_band_seen seen [] best h =
      subst (λ (l : List Band). IsBest gaps l best) (sym (append-nil seen)) h
  best_band_seen seen (band ∷ bands) best h =
      subst (λ (l : List Band). IsBest gaps l (best_band gaps bands (better_band gaps band best)))
        (append_assoc seen (band ∷ []) bands)
        (best_band_seen (seen ++ band ∷ []) bands (better_band gaps band best)
          (better_band-IsBest band seen best h))

  -- The cadence that is chosen is one that fits, that is, it holds two thirds of the gaps and one at
  -- least, it comes with all the gaps that it holds, and no other one that fits holds more; none is
  -- chosen only if none fits.
  pub best_band-IsBest : IsBest gaps cadence_bands (best_band gaps cadence_bands none)
  best_band-IsBest = best_band_seen [] cadence_bands none tt
