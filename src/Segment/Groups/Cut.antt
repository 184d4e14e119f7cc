-- ===== src/Segment/Groups/Cut.antt =====
-- The greedy choice of a part by the inner loop of `insertTuplesSub`.
use master_team_projekt.Prelude.{
  ℕ, zero, suc, ◌+◌, ◌-◌, ◌≤◌, ◌<◌, ◌≡◌, refl, ap, ◌⊎◌, inl, inr, List, [], ◌∷◌, length, take, ltb,
  if◌then◌else◌, Bool-cases, ltb→lt, arith,
}
use master_team_projekt.Segment.Groups.{room_for, total_size, take_part, cut}

-- What the inner loop takes, from `part` bytes on.
record Takes (limit part : ℕ) (sizes : List ℕ) (r : ℕ × ℕ) : Type 0 where
  sum : r.1 ≡ part + total_size (take r.0 sizes)
  bound : r.0 ≤ length sizes
  before : (k : ℕ) → k < r.0 → part + total_size (take k sizes) < limit
  full : (r.0 ≡ length sizes) ⊎ (limit ≤ r.1)

take_part-Takes :
    (limit part : ℕ) (sizes : List ℕ) → Takes limit part sizes (take_part limit part sizes)
unfolding take_part
take_part-Takes limit part [] = record {
  sum = omega arith;
  bound = omega arith;
  before = λ k below. absurd (omega (arith, below));
  full = inl refl;
}
take_part-Takes limit part (x ∷ xs) = elim (Bool-cases (ltb part limit)) [
  | inr e ↦ rw e (record {
    sum = omega arith;
    bound = omega arith;
    before = λ k below. absurd (omega (arith, below));
    full = inr (ground (arith, e));
  })
  | inl e ↦ rw e (
      one_more (take_part limit (part + room_for x) xs) (ground (arith, e))
        (take_part-Takes limit (part + room_for x) xs))
]
  where
    one_more :
        (r : ℕ × ℕ)
        → part < limit
        → Takes limit (part + room_for x) xs r
        → Takes limit part (x ∷ xs) (suc r.0, r.1)
    one_more r less h = record {
      sum = omega (arith, h.sum);
      bound = omega (arith, h.bound);
      before = earlier;
      full = elim h.full [ inl e ↦ inl (ap suc e) | inr e ↦ inr e ];
    }
      where
        earlier : (k : ℕ) → k < suc r.0 → part + total_size (take k (x ∷ xs)) < limit
        earlier zero below = omega (arith, less)
        earlier (suc k) below = omega (arith, h.before k (omega (arith, below)))

total_size-take :
    (n : ℕ) (sizes : List ℕ) → total_size (take n sizes) ≤ total_size (take (n + 1) sizes)
total_size-take zero sizes = omega arith
total_size-take (suc n) [] = omega arith
total_size-take (suc n) (x ∷ xs) =
    let next : suc n + 1 ≡ suc (n + 1) = omega arith in
    rw next (omega (arith, total_size-take n xs))

-- The part fits into the limit, holds at least one tuple if there is one that fits alone, and if a tuple is left
-- then the part would reach the limit with it.
pub record IsPart (limit : ℕ) (sizes : List ℕ) (n : ℕ) : Type 0 where
  pub fits : total_size (take n sizes) ≤ limit
  pub bound : n ≤ length sizes
  pub some_tuple : (x : ℕ) (xs : List ℕ) → sizes ≡ x ∷ xs → room_for x ≤ limit → 0 < n
  pub greedy : n < length sizes → limit ≤ total_size (take (n + 1) sizes)

-- For a positive limit, the greedy loop cuts off a part that fits, that is not empty if the first tuple fits
-- alone, and that reaches the limit with the next tuple.
pub cut-IsPart : (limit : ℕ) (sizes : List ℕ) → 0 < limit → IsPart limit sizes (cut limit sizes)
unfolding cut
cut-IsPart limit sizes pos = by_sum (take_part limit 0 sizes) (take_part-Takes limit 0 sizes)
  where
    some_taken : (n sum x : ℕ) (xs : List ℕ) → Takes limit 0 sizes (n, sum) → sizes ≡ x ∷ xs → 0 < n
    some_taken zero sum x xs h is = elim h.full [
      | inl e ↦ let e' = rw is at e in absurd (omega (arith, e'))
      | inr e ↦ let s = h.sum in absurd (omega (arith, pos, e, s))
    ]
    some_taken (suc n) sum x xs h is = omega arith

    given_back :
        (n sum : ℕ) → Takes limit 0 sizes (n, sum) → limit < sum → IsPart limit sizes (n - 1)
    given_back zero sum h more = let s = h.sum in absurd (omega (arith, s, more))
    given_back (suc k) sum h more =
        let less : suc k - 1 ≡ k = omega arith in
        let next : k + 1 ≡ suc k = omega arith in
        rw less (record {
          fits = omega (arith, h.before k (omega arith));
          bound = omega (arith, h.bound);
          some_tuple = λ x xs is fit. not_first k x xs h.sum is fit more;
          greedy = λ left. rw next (omega (arith, h.sum, more));
        })
      where
        not_first :
            (k x : ℕ) (xs : List ℕ)
            → sum ≡ 0 + total_size (take (suc k) sizes)
            → sizes ≡ x ∷ xs
            → room_for x ≤ limit
            → limit < sum
            → 0 < k
        not_first zero x xs s is fit more =
            let s' = rw is at s in absurd (omega (arith, s', fit, more))
        not_first (suc k) x xs s is fit more = omega arith

    by_sum :
        (r : ℕ × ℕ)
        → Takes limit 0 sizes r
        → IsPart limit sizes (if ltb limit r.1 then r.0 - 1 else r.0)
    by_sum (n, sum) h = elim (Bool-cases (ltb limit sum)) [
      | inr e ↦ rw e (record {
        fits = ground (arith, e, h.sum);
        bound = h.bound;
        some_tuple = λ x xs is fit. some_taken n sum x xs h is;
        greedy = λ less. omega (arith, h.full, h.sum, less, total_size-take n sizes);
      })
      | inl e ↦ rw e (given_back n sum h (ltb→lt limit sum e))
    ]
