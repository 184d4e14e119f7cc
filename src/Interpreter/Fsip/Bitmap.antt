-- ===== src/Interpreter/Fsip/Bitmap.antt =====
-- Searching and counting in the bits of an indicator page: `getNextFreePage` against its
-- description, and the number of free bits that `_freeBlocksCount` stands for.
use master_team_projekt.Prelude.{
  ℕ, zero, suc, ◌+◌, ◌-◌, ◌*◌, ◌≤◌, ◌<◌, ◌≡◌, refl, sym, ◌∙◌, ap, subst, ltb→lt, ◌≢◌, ◌⊎◌, inl, inr,
  true, false, not, ==→≡, if◌then◌else◌, ◌==◌, Bool-cases, arith, ltb,
}
use master_team_projekt.Prelude.Bits.{Bits, bit_not, read_word}
use master_team_projekt.Interpreter.Fsip.{any_bit, idx_lowest_bit_set, scan_words}

-- `r` is the first free bit from `lo` on, and lies below `hi`.
pub record IsFirstFree (m : Bits) (lo hi r : ℕ) : Type 0 where
  pub from : lo ≤ r
  pub below : r < hi
  pub is_free : m r ≡ false
  pub least : (i : ℕ) → lo ≤ i → i < r → m i ≡ true

-- Either there is a first free bit in the range, and it is `r`, or there is none, and `r` is 0.
abbrev pub Finds : Bits → ℕ → ℕ → ℕ → Type 0
Finds m lo hi r = IsFirstFree m lo hi r ⊎ ((r ≡ 0) × ((i : ℕ) → lo ≤ i → i < hi → m i ≡ true))

step_least :
    (m : Bits) (lo r : ℕ)
    → m lo ≡ true
    → ((i : ℕ) → lo + 1 ≤ i → i < r → m i ≡ true)
    → (i : ℕ) → lo ≤ i
    → i < r
    → m i ≡ true
step_least m lo r e f i p q = elim (Bool-cases (i == lo)) [
  | inl same ↦ rw (==→≡ i lo same) e
  | inr other ↦ f i (ground arith) q
]

-- The lowest bit that is set is the first one that the complement lacks.
idx_lowest_bit_set_lem :
    (n k : ℕ) (v : Bits)
    → any_bit n k v ≡ true
    → IsFirstFree (bit_not v) k (k + n) (idx_lowest_bit_set n k v)
unfolding any_bit idx_lowest_bit_set
idx_lowest_bit_set_lem zero k v h = absurd (ground arith)
idx_lowest_bit_set_lem (suc n) k v h = elim (Bool-cases (v k)) [
  | inl e ↦ rw e (record {
    from = omega arith;
    below = omega arith;
    is_free = rw e;
    least = λ i p q. absurd (omega arith);
  })
  | inr e ↦
      let ih = idx_lowest_bit_set_lem n (k + 1) v (ground arith) in
      rw e (record {
        from = omega (arith, ih.from);
        below = omega (arith, ih.below);
        is_free = ih.is_free;
        least = step_least (bit_not v) k _ (rw e) ih.least;
      })
]

any_bit-none :
    (n k : ℕ) (v : Bits) → any_bit n k v ≡ false → (i : ℕ) → k ≤ i → i < k + n → v i ≡ false
unfolding any_bit
any_bit-none zero k v h i p q = absurd (omega arith)
any_bit-none (suc n) k v h i p q = elim (Bool-cases (i == k)) [
  | inl same ↦ rw (==→≡ i k same) (ground arith)
  | inr other ↦ any_bit-none n (k + 1) v (ground arith) i (ground arith) (omega arith)
]

-- Bit `k` of word `j`, complemented twice.
word_bit : (m : Bits) (j k : ℕ) → k < 32 → bit_not (bit_not (read_word 32 m j)) k ≡ m (j * 32 + k)
word_bit m j k h = ground arith

word_first :
    (m : Bits) (j hi r : ℕ)
    → (j + 1) * 32 ≤ hi
    → IsFirstFree (bit_not (bit_not (read_word 32 m j))) 0 (0 + 32) r
    → IsFirstFree m (j * 32) hi (j * 32 + r)
word_first m j hi r h f = record {
  from = omega arith;
  below = omega (arith, f.below);
  is_free = sym (word_bit m j r f.below) ∙ f.is_free;
  least = λ i p q.
      subst (λ k. m k ≡ true) (omega arith)
        (sym (word_bit m j (i - j * 32) (omega (arith, f.below)))
          ∙ f.least (i - j * 32) (omega arith) (omega arith));
}

word_full :
    (m : Bits) (j : ℕ)
    → ((i : ℕ) → 0 ≤ i → i < 0 + 32 → bit_not (read_word 32 m j) i ≡ false)
    → (i : ℕ) → j * 32 ≤ i
    → i < (j + 1) * 32
    → m i ≡ true
word_full m j f i p q =
    subst (λ k. m k ≡ true) (omega arith)
      (sym (word_bit m j (i - j * 32) (omega arith))
        ∙ ap not (f (i - j * 32) (omega arith) (omega arith)))

-- A range that is all in use does not change what is found behind it.
Finds-skip :
    (m : Bits) (lo mid hi r : ℕ)
    → lo ≤ mid
    → ((i : ℕ) → lo ≤ i → i < mid → m i ≡ true)
    → Finds m mid hi r
    → Finds m lo hi r
Finds-skip m lo mid hi r h used (inl f) = inl (record {
  from = omega (arith, f.from);
  below = f.below;
  is_free = f.is_free;
  least = λ i p q. elim (Bool-cases (ltb i mid)) [
    | inl e ↦ used i p (ltb→lt i mid e)
    | inr e ↦ f.least i (ground arith) q
  ];
})
Finds-skip m lo mid hi r h used (inr (z, f)) = inr (
  z,
  λ i p q. elim (Bool-cases (ltb i mid)) [
    | inl e ↦ used i p (ltb→lt i mid e)
    | inr e ↦ f i (ground arith) q
  ],
)

-- The loop of `getNextFreePage` over the words `j` to `j + n - 1`.
pub scan_words-Finds : (n j : ℕ) (m : Bits) → Finds m (j * 32) ((j + n) * 32) (scan_words n j m)
unfolding scan_words
scan_words-Finds zero j m = inr (refl, λ i p q. absurd (omega arith))
scan_words-Finds (suc n) j m = elim (Bool-cases (any_bit 32 0 (bit_not (read_word 32 m j)))) [
  | inl e ↦ rw e (inl (word_first m j _ _ (omega arith) (idx_lowest_bit_set_lem 32 0 _ e)))
  | inr e ↦ rw e (
      Finds-skip m (j * 32) ((j + 1) * 32) ((j + suc n) * 32) (scan_words n (j + 1) m) (omega arith)
        (word_full m j (any_bit-none 32 0 _ e))
        (subst (λ h. Finds m ((j + 1) * 32) h (scan_words n (j + 1) m)) (omega arith)
          (scan_words-Finds n (j + 1) m)))
]

-- The number of free bits below `n`.
abbrev pub count_free : ℕ → Bits → ℕ
count_free zero m = 0
count_free (suc n) m = (if m n then 0 else 1) + count_free n m

pub count_free-congr :
    (n : ℕ) (m m' : Bits) → ((i : ℕ) → i < n → m i ≡ m' i) → count_free n m ≡ count_free n m'
count_free-congr zero m m' h = refl
count_free-congr (suc n) m m' h =
    ground (arith, h n (omega arith), count_free-congr n m m' (λ i p. h i (omega arith)))

-- Taking one free bit lowers the number by one.
pub count_free-take :
    (n i : ℕ) (m m' : Bits)
    → i < n
    → m i ≡ false
    → m' i ≡ true
    → ((k : ℕ) → k ≢ i → m' k ≡ m k)
    → count_free n m' + 1 ≡ count_free n m
count_free-take zero i m m' p e e' h = absurd (omega arith)
count_free-take (suc n) i m m' p e e' h = elim (Bool-cases (n == i)) [
  | inl same ↦
      ground (arith, ==→≡ n i same, count_free-congr n m m' (λ k q. sym (h k (ground arith))))
  | inr other ↦ ground (arith, h n (ground arith), count_free-take n i m m' (ground arith) e e' h)
]

-- If one bit is free the number is positive.
pub count_free-pos : (n i : ℕ) (m : Bits) → i < n → m i ≡ false → 0 < count_free n m
count_free-pos zero i m p e = absurd (omega arith)
count_free-pos (suc n) i m p e = elim (Bool-cases (n == i)) [
  | inl same ↦ ground (arith, ==→≡ n i same)
  | inr other ↦ ground (arith, count_free-pos n i m (ground arith) e)
]

pub count_free-none : (n : ℕ) (m : Bits) → ((i : ℕ) → i < n → m i ≡ true) → count_free n m ≡ 0
count_free-none zero m h = refl
count_free-none (suc n) m h =
    ground (arith, h n (omega arith), count_free-none n m (λ i p. h i (omega arith)))
