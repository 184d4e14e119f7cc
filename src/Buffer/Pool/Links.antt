-- ===== src/Buffer/Pool/Links.antt =====
-- A free block that becomes the first in the chain of a page.
use master_team_projekt.Prelude.{
  ℕ, ◌+◌, ◌≤◌, ◌<◌, ◌≡◌, ◌≢◌, refl, sym, ap, ◌∙◌, subst, none, some, List, ◌∷◌, true, false, ◌==◌,
  ◌⊎◌, if◌then◌else◌, Bool-cases, ==→≡, ==→≢, inl, inr, count, arith,
}
use master_team_projekt.Prelude.Word.{sub_64}
use master_team_projekt.Infra.Types.{PageId}
use master_team_projekt.Buffer.Free.{Blocks, hash, set_next, link_block, pop_bcb}
use master_team_projekt.Buffer.Free.Chain.{IsChain}
use master_team_projekt.Buffer.Pool.Coherent.{IsLinked}
use master_team_projekt.Buffer.Pool.Chains.{IsChain-agree, replace}

-- The blocks behind `popFromList`.
abbrev pub popped : ℕ → Blocks → Blocks
popped i s =
    set_next i none (record s { free_bcb_list = s.next i; no_free_bcbs = sub_64 s.no_free_bcbs 1 })

pub pop_bcb-some :
    (i : ℕ) (s : Blocks) → s.free_bcb_list ≡ some i → pop_bcb s ≡ some (i, popped i s)
unfolding pop_bcb
pop_bcb-some i s e = rw e refl

pub pop_bcb-none : (s : Blocks) → s.free_bcb_list ≡ none → pop_bcb s ≡ none
unfolding pop_bcb
pop_bcb-none s e = rw e refl

pub same_number : (n : ℕ) → (n == n) ≡ true
same_number n = ground arith

abbrev pub IsAway : (ℕ → List ℕ) → PageId → Blocks → Type 0
IsAway chain p s = (h i : ℕ) → 0 < count i (chain h) → s.page_id i ≢ p

-- The first free block `i` is linked in for a page that has none.
module _ (std_hash : ℕ → ℕ) (chain : ℕ → List ℕ) (i : ℕ) (free : List ℕ) (p : PageId) (s : Blocks)
    (w : IsLinked std_hash chain (i ∷ free) s) where
  abbrev pub linked_in : Blocks
  linked_in = link_block std_hash p i (popped i s)

  abbrev pub chain_with : ℕ → List ℕ
  chain_with = replace (hash std_hash s p) (i ∷ chain (hash std_hash s p)) chain

  pub was_free : (k : ℕ) → count i (chain k) ≡ 0
  was_free k = ground (arith, w.once k i)

  pub count-with :
      (k m : ℕ)
      → count m (chain_with k)
        ≡ (if k == hash std_hash s p then if i == m then 1 else 0 else 0) + count m (chain k)
  count-with k m = elim (Bool-cases (k == hash std_hash s p)) [
    | inl e ↦ rw e (ap (λ l. (if i == m then 1 else 0) + count m (chain l)) (sym (==→≡ k _ e)))
    | inr e ↦ rw e (omega arith)
  ]

  pub linked_next : (k : ℕ) → k ≢ i → linked_in.next k ≡ s.next k
  unfolding link_block
  linked_next k ne = ground (arith, ne)

  pub linked_page : (k : ℕ) → k ≢ i → linked_in.page_id k ≡ s.page_id k
  unfolding link_block
  linked_page k ne = ground (arith, ne)

  pub own_page : linked_in.page_id i ≡ p
  unfolding link_block
  own_page = ground arith

  pub own_bucket : linked_in.bucket (hash std_hash s p) ≡ some i
  unfolding link_block
  own_bucket = ground arith

  pub own_next : linked_in.next i ≡ s.bucket (hash std_hash s p)
  unfolding link_block
  own_next = ground arith

  other_bucket : (k : ℕ) → k ≢ hash std_hash s p → linked_in.bucket k ≡ s.bucket k
  unfolding link_block
  other_bucket k ne = ground (arith, ne)

  not_it : (m n : ℕ) → 0 < n → n ≡ 0 → ⊥
  not_it m n on off = omega (arith, on, off)

  kept_chain : (k : ℕ) → IsChain linked_in.next (s.bucket k) (chain k)
  kept_chain k =
      IsChain-agree s.next linked_in.next (s.bucket k) (chain k)
        (λ m on.
          linked_next m
            (λ e. not_it m (count m (chain k)) on (ap (λ l. count l (chain k)) e ∙ was_free k)))
        (w.chains k)

  -- A block of a chain is the new one, or was there before.
  pub on_chain : (k m : ℕ) → 0 < count m (chain_with k) → m ≢ i → 0 < count m (chain k)
  on_chain k m on ne = ground (arith, on, ne, count-with k m)

  -- The new block is in the chain of its page alone.
  home : (k : ℕ) → 0 < count i (chain_with k) → k ≡ hash std_hash s p
  home k on = elim (Bool-cases (k == hash std_hash s p)) [
    | inl e ↦ ==→≡ _ _ e
    | inr e ↦
        absurd (
          not_it i (count i (chain_with k)) on (ap (λ l. count i l) (other_chain k e) ∙ was_free k))
  ]
    where
      other_chain : (k : ℕ) → (k == hash std_hash s p) ≡ false → chain_with k ≡ chain k
      other_chain k e = rw e refl

  linked_chain : (k : ℕ) → IsChain linked_in.next (linked_in.bucket k) (chain_with k)
  linked_chain k = elim (Bool-cases (k == hash std_hash s p)) [
    | inl e ↦
        subst (λ l. IsChain linked_in.next (linked_in.bucket l) (chain_with l)) (sym (==→≡ k _ e))
          first
    | inr e ↦ rw e (
        subst (λ q. IsChain linked_in.next q (chain k)) (sym (other_bucket k (==→≢ k _ e)))
          (kept_chain k))
  ]
    where
      first :
          IsChain linked_in.next
            (linked_in.bucket (hash std_hash s p))
            (chain_with (hash std_hash s p))
      first = rw (same_number (hash std_hash s p)) (
        own_bucket,
        subst (λ q. IsChain linked_in.next q (chain (hash std_hash s p))) (sym own_next)
            (kept_chain (hash std_hash s p)),
      )

  pub same_hash : (q : PageId) → hash std_hash linked_in q ≡ hash std_hash s q
  unfolding link_block
  same_hash q = refl

  linked_free : IsChain linked_in.next linked_in.free_bcb_list free
  unfolding link_block
  linked_free =
      IsChain-agree s.next linked_in.next (s.next i) free
        (λ m on. linked_next m (λ e.
          not_it m (count m free) on
            (ap (λ l. count l free) e ∙ alone (count i free) (w.once 0 i))))
        w.free_list.1
    where
      alone : (n : ℕ) → count i (chain 0) + count i (i ∷ free) ≤ 1 → count i free ≡ 0
      alone n le = ground (arith, le)

  pub Links-IsLinked : IsAway chain p s → IsLinked std_hash chain_with free linked_in
  Links-IsLinked away = record {
    chains = linked_chain;
    free_list = linked_free;
    hashed = λ k m on. elim (Bool-cases (m == i)) [
      | inl e ↦
          let here = ==→≡ m i e in
          ap (λ q. hash std_hash linked_in (linked_in.page_id q)) here
          ∙ ap (hash std_hash linked_in) own_page
          ∙ same_hash p
          ∙ sym (home k (subst (λ q. 0 < count q (chain_with k)) here on))
      | inr e ↦
          ap (hash std_hash linked_in) (linked_page m (==→≢ m i e))
          ∙ same_hash (s.page_id m)
          ∙ w.hashed k m (on_chain k m on (==→≢ m i e))
    ];
    once = λ k m. ground (arith, count-with k m, w.once k m, was_free k);
    single = λ k m n on on' e. one_of k m n on on' e (Bool-cases (m == i)) (Bool-cases (n == i));
  }
    where
      one_of :
          (k m n : ℕ)
          → 0 < count m (chain_with k)
          → 0 < count n (chain_with k)
          → linked_in.page_id m ≡ linked_in.page_id n
          → ((m == i) ≡ true) ⊎ ((m == i) ≡ false)
          → ((n == i) ≡ true) ⊎ ((n == i) ≡ false)
          → m ≡ n
      one_of k m n on on' e (inl a) (inl b) = ==→≡ m i a ∙ sym (==→≡ n i b)
      one_of k m n on on' e (inl a) (inr b) = absurd (
          away k n (on_chain k n on' (==→≢ n i b)) (
            sym (linked_page n (==→≢ n i b))
            ∙ sym e
            ∙ ap linked_in.page_id (==→≡ m i a)
            ∙ own_page))
      one_of k m n on on' e (inr a) (inl b) = absurd (
          away k m (on_chain k m on (==→≢ m i a))
            (sym (linked_page m (==→≢ m i a)) ∙ e ∙ ap linked_in.page_id (==→≡ n i b) ∙ own_page))
      one_of k m n on on' e (inr a) (inr b) =
          w.single k m n (on_chain k m on (==→≢ m i a)) (on_chain k n on' (==→≢ n i b))
            (sym (linked_page m (==→≢ m i a)) ∙ e ∙ linked_page n (==→≢ n i b))
