-- ===== src/Buffer/Pool/Chains.antt =====
-- The chains and the list of free blocks while a block goes from one to the other.
use master_team_projekt.Prelude.{
  ℕ, ◌+◌, ◌≤◌, ◌<◌, ◌≡◌, ◌≢◌, refl, sym, ap, ◌∙◌, subst, Option, List, [], ◌∷◌, ◌++◌, ◌==◌,
  if◌then◌else◌, Bool-cases, ==→≡, ==→≢, inl, inr, count, count-append, arith,
}
use master_team_projekt.Buffer.Free.{Blocks, hash, insert_bcb, set_bucket, set_next}
use master_team_projekt.Buffer.Free.Chain.{IsChain}
use master_team_projekt.Buffer.Pool.Coherent.{IsLinked}

-- Only the links of its own blocks matter to a chain.
pub IsChain-agree :
    (n m : ℕ → Option ℕ) (q : Option ℕ) (is : List ℕ)
    → ((i : ℕ) → 0 < count i is → m i ≡ n i)
    → IsChain n q is
    → IsChain m q is
IsChain-agree n m q [] same c = c
IsChain-agree n m q (i ∷ is) same (head, tail) = (
  head,
  subst (λ r. IsChain m r is) (sym (same i (ground arith)))
      (IsChain-agree n m (n i) is (λ j on. same j (omega (arith, on))) tail),
)

-- The link of `pre`, which is not behind itself, skips the block `j`.
pub IsChain-skip :
    (n : ℕ → Option ℕ) (q : Option ℕ) (is : List ℕ) (pre j : ℕ) (js : List ℕ)
    → ((i : ℕ) → count i (is ++ (pre ∷ j ∷ js)) ≤ 1)
    → IsChain n q (is ++ (pre ∷ j ∷ js))
    → IsChain (λ k. if k == pre then n j else n k) q (is ++ (pre ∷ js))
IsChain-skip n q [] pre j js once (head, (to_j, tail)) = (
  head,
  subst (λ r. IsChain (λ k. if k == pre then n j else n k) r js) {x = n j} (ground arith)
      (IsChain-agree n _ (n j) js
        (λ i on. elim (Bool-cases (i == pre)) [
          | inl e ↦ absurd (twice i (==→≡ i pre e) on (once i))
          | inr e ↦ rw e refl
        ])
        tail),
)
  where
    twice : (i : ℕ) → i ≡ pre → 0 < count i js → count i (pre ∷ j ∷ js) ≤ 1 → ⊥
    twice i e on le = ground (arith, e, on, le)
IsChain-skip n q (i ∷ is) pre j js once (head, tail) = (
  head,
  subst (λ r. IsChain (λ k. if k == pre then n j else n k) r (is ++ (pre ∷ js))) {x = n i}
      (ground (arith, apart (count-append pre is (pre ∷ j ∷ js)) (once pre)))
      (IsChain-skip n (n i) is pre j js (λ k. omega (arith, once k)) tail),
)
  where
    apart :
        count pre (is ++ (pre ∷ j ∷ js)) ≡ count pre is + count pre (pre ∷ j ∷ js)
        → count pre (i ∷ (is ++ (pre ∷ j ∷ js))) ≤ 1
        → i ≢ pre
    apart sum le e = ground (arith, sum, le, e)

-- How the links and the buckets change when the block `j` of bucket `h`, whose chain is `all`, is taken out of
-- it, so that `rest` is left.
pub record Cuts (h j : ℕ) (all rest : List ℕ) (s u : Blocks) : Type 0 where
  pub same : u ≡ record s { next = u.next; bucket = u.bucket }
  pub left : IsChain u.next (u.bucket h) rest
  pub counts : (m : ℕ) → count m all ≡ count m rest + (if j == m then 1 else 0)
  pub buckets : (k : ℕ) → k ≢ h → u.bucket k ≡ s.bucket k
  pub links : (i : ℕ) → count i all ≡ 0 → u.next i ≡ s.next i

pub set_bucket-Cuts :
    (h j : ℕ) (js : List ℕ) (s : Blocks)
    → IsChain s.next (s.bucket h) (j ∷ js)
    → Cuts h j (j ∷ js) js s (set_bucket h (s.next j) s)
set_bucket-Cuts h j js s (head, tail) = record {
  same = refl;
  left = subst (λ r. IsChain s.next r js) {x = s.next j} (ground arith) tail;
  counts = λ m. omega arith;
  buckets = λ k ne. ground (arith, ne);
  links = λ i off. refl;
}

pub set_next-Cuts :
    (h : ℕ) (is : List ℕ) (pre j : ℕ) (js : List ℕ) (s : Blocks)
    → ((i : ℕ) → count i (is ++ (pre ∷ j ∷ js)) ≤ 1)
    → IsChain s.next (s.bucket h) (is ++ (pre ∷ j ∷ js))
    → Cuts h j (is ++ (pre ∷ j ∷ js)) (is ++ (pre ∷ js)) s (set_next pre (s.next j) s)
set_next-Cuts h is pre j js s once c = record {
  same = refl;
  left = IsChain-skip s.next (s.bucket h) is pre j js once c;
  counts = λ m. omega (arith, count-append m is (pre ∷ j ∷ js), count-append m is (pre ∷ js));
  buckets = λ k ne. refl;
  links = λ i off. ground (arith, off, count-append i is (pre ∷ j ∷ js));
}

-- The chains without one block of the chain of `h`.
abbrev pub replace : ℕ → List ℕ → (ℕ → List ℕ) → ℕ → List ℕ
replace h rest chain k = if k == h then rest else chain k

pub count-replace :
    (h : ℕ) (rest : List ℕ) (chain : ℕ → List ℕ) (k m : ℕ)
    → count m (replace h rest chain k) ≡ (if k == h then count m rest else count m (chain k))
count-replace h rest chain k m = elim (Bool-cases (k == h)) [
  | inl e ↦ rw e refl
  | inr e ↦ rw e refl
]

-- No block is in two chains.
pub chains_apart :
    (std_hash : ℕ → ℕ) (chain : ℕ → List ℕ) (free : List ℕ) (s : Blocks)
    → IsLinked std_hash chain free s
    → (h k i : ℕ) → k ≢ h
    → 0 < count i (chain k)
    → count i (chain h) ≡ 0
chains_apart std_hash chain free s w h k i ne on = elim (Bool-cases (count i (chain h) == 0)) [
  | inl e ↦ ==→≡ _ _ e
  | inr e ↦ absurd (ne (sym (w.hashed k i on) ∙ w.hashed h i (omega (arith, ==→≢ _ _ e))))
]

-- A page has one block, whatever the chain.
pub one_block :
    (std_hash : ℕ → ℕ) (chain : ℕ → List ℕ) (free : List ℕ) (s : Blocks)
    → IsLinked std_hash chain free s
    → (h k i j : ℕ) → 0 < count i (chain h)
    → 0 < count j (chain k)
    → s.page_id i ≡ s.page_id j
    → i ≡ j
one_block std_hash chain free s w h k i j on on' e =
    let h_is_k : h ≡ k = sym (w.hashed h i on) ∙ ap (hash std_hash s) e ∙ w.hashed k j on' in
    w.single k i j (subst (λ l. 0 < count i (chain l)) h_is_k on) on' e

-- A block that is cut out of its chain and becomes the first free one leaves chains and list in order.
module _ (std_hash : ℕ → ℕ) (chain : ℕ → List ℕ) (free : List ℕ) (h j : ℕ) (rest : List ℕ)
    (s u : Blocks) (w : IsLinked std_hash chain free s) (c : Cuts h j (chain h) rest s u) where
  pub count-cut :
      (k m : ℕ)
      → count m (replace h rest chain k) + (if k == h then if j == m then 1 else 0 else 0)
        ≡ count m (chain k)
  count-cut k m = elim (Bool-cases (k == h)) [
    | inl e ↦ rw e (sym (c.counts m) ∙ ap (λ l. count m (chain l)) (sym (==→≡ k h e)))
    | inr e ↦ rw e (omega arith)
  ]

  pub was_chained : (k m : ℕ) → 0 < count m (replace h rest chain k) → 0 < count m (chain k)
  was_chained k m on = omega (arith, on, count-cut k m)

  pub is_chained : 0 < count j (chain h)
  is_chained = ground (arith, c.counts j)

  -- The block itself is in no chain any more.
  pub cut_off : (k : ℕ) → count j (replace h rest chain k) ≡ 0
  cut_off k = elim (Bool-cases (k == h)) [
    | inl e ↦ rw e (ground (arith, c.counts j, w.once h j))
    | inr e ↦ rw e (
        zero_or_absurd (count j (chain k)) (λ on.
          let off = chains_apart std_hash chain free s w h k j (==→≢ k h e) on in
          omega (arith, off, is_chained)))
  ]
    where
      zero_or_absurd : (n : ℕ) → (0 < n → ⊥) → n ≡ 0
      zero_or_absurd n f = elim (Bool-cases (n == 0)) [
        | inl e ↦ ==→≡ n 0 e
        | inr e ↦ absurd (f (omega (arith, ==→≢ n 0 e)))
      ]

  cut-chain : (k : ℕ) → IsChain u.next (u.bucket k) (replace h rest chain k)
  cut-chain k = elim (Bool-cases (k == h)) [
    | inl e ↦ rw e (subst (λ l. IsChain u.next (u.bucket l) rest) (sym (==→≡ k h e)) c.left)
    | inr e ↦ rw e (
        subst (λ q. IsChain u.next q (chain k)) (sym (c.buckets k (==→≢ k h e)))
          (IsChain-agree s.next u.next (s.bucket k) (chain k)
            (λ i on. c.links i (chains_apart std_hash chain free s w h k i (==→≢ k h e) on))
            (w.chains k)))
  ]

  -- The links behind `insertToFreeBCBs`.
  freed_link : (i : ℕ) → i ≢ j → (insert_bcb j u).next i ≡ u.next i
  unfolding insert_bcb
  freed_link i ne = ground (arith, ne)

  own_link : (q : Option ℕ) (n : ℕ → Option ℕ) → (if j == j then q else n j) ≡ q
  own_link q n = ground arith

  pub Cuts-IsLinked : IsLinked std_hash (replace h rest chain) (j ∷ free) (insert_bcb j u)
  unfolding insert_bcb
  Cuts-IsLinked = record {
    chains = λ k.
        IsChain-agree u.next _ (u.bucket k) (replace h rest chain k)
          (λ i on. freed_link i (λ e. omega (arith, rw e at on, cut_off k))) (cut-chain k);
    free_list = (
      refl,
      subst (λ q. IsChain (insert_bcb j u).next q free) {x = s.free_bcb_list}
          (sym (ap (λ v. v.free_bcb_list) c.same) ∙ sym (own_link u.free_bcb_list u.next))
          (IsChain-agree s.next _ s.free_bcb_list free
            (λ i on.
              freed_link i (λ e. omega (arith, rw e at on, w.once h j, is_chained))
              ∙ c.links i (omega (arith, on, w.once h i)))
            w.free_list),
    );
    hashed = λ k i on.
        ap (λ v. hash std_hash v (v.page_id i)) c.same ∙ w.hashed k i (was_chained k i on);
    once = λ k i. elim (Bool-cases (j == i)) [
      | inl e ↦
          subst (λ m. count m (replace h rest chain k) + count m (j ∷ free) ≤ 1) (==→≡ j i e)
            (ground (arith, cut_off k, w.once h j, is_chained))
      | inr e ↦ rw e (omega (arith, count-cut k i, w.once k i))
    ];
    single = λ k i l on on' e.
        w.single k i l (was_chained k i on) (was_chained k l on')
          (sym (ap (λ v. v.page_id i) c.same) ∙ e ∙ ap (λ v. v.page_id l) c.same);
  }
