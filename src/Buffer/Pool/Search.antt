-- ===== src/Buffer/Pool/Search.antt =====
-- The search of `getFrame`: along the chains of the buckets that are chosen, for a block that nobody holds.
use master_team_projekt.Prelude.{
  ℕ, zero, suc, ◌+◌, ◌≤◌, ◌<◌, ◌≡◌, ◌≢◌, refl, sym, ap, ◌∙◌, subst, Bool, Option, none, some, List,
  [], ◌∷◌, ◌++◌, true, false, ◌==◌, ◌⊎◌, if◌then◌else◌, Bool-cases, ==→≡, inl, inr, count, length,
  arith,
}
use master_team_projekt.Infra.Types.{PageId}
use master_team_projekt.Buffer.Block.{Block, unlock}
use master_team_projekt.Buffer.Free.{Blocks, set_bucket, set_next}
use master_team_projekt.Buffer.Free.Chain.{IsChain}
use master_team_projekt.Buffer.Pool.{
  Frame, Device, Pool, Answer, set_lock, try_lock, take_victim, evict_after, evict_in,
}
use master_team_projekt.Buffer.Pool.Coherent.{Answers, Answers-bind, IsDevice, IsCoherent}
use master_team_projekt.Buffer.Pool.Chains.{Cuts, is_chained, set_bucket-Cuts, set_next-Cuts}
use master_team_projekt.Buffer.Pool.Victim.{
  try_lock-unlock, Grants, Flushes, OnlyDisk, flush-Flushes,
}
use master_team_projekt.Buffer.Pool.Evict.{evicted-Grants}

append_one : (xs : List ℕ) (x : ℕ) (ys : List ℕ) → (xs ++ (x ∷ [])) ++ ys ≡ xs ++ (x ∷ ys)
append_one [] x ys = refl
append_one (z ∷ xs) x ys = ap (λ l. z ∷ l) (append_one xs x ys)

module _ {D : Type 0} (device : Device D) (laws : IsDevice device) (std_hash : ℕ → ℕ)
    (a : PageId → Option Frame) (loading : ℕ → Bool) (chain : ℕ → List ℕ) (free : List ℕ)
    (s : Pool D) (w : IsCoherent device std_hash a loading chain free s)
    (held : (i : ℕ) → loading i ≡ true → (s.locks i).fix_count ≢ 0) where
  abbrev pub Grant : ℕ → Pool D → Type 0
  Grant = Grants device std_hash a loading chain s

  take_victim-Grants :
      (h j : ℕ) (rest : List ℕ) (next bucket : ℕ → Option ℕ) (b : Block)
      → Cuts h j (chain h) rest s.blocks (record (s.blocks) { next = next; bucket = bucket })
      → try_lock j s ≡ some b
      → (relink : Blocks → Blocks)
      → relink s.blocks ≡ record (s.blocks) { next = next; bucket = bucket }
      → Answers (OnlyDisk device) Grant (take_victim device j relink b s)
  unfolding take_victim
  take_victim-Grants h j rest next bucket b c e relink e' =
      Answers-bind (OnlyDisk device) (λ u t. Flushes device j (set_lock j b s) t) Grant _ _
        (flush-Flushes device laws j (set_lock j b s)
          (λ dirty. (w.framed.owned h j in_h (w.shows.brought h j in_h ready)).0)
          (w.shows.known h j in_h))
        (λ u t fl.
          rw (fl.rest, e')
            (evicted-Grants device std_hash a loading chain free s w h j rest next bucket c ready b
              t (λ i l i_j. l (ap (λ k. (s.locks k).fix_count) i_j ∙ free_lock.2))
              (free_lock.0, free_lock.1) fl))
    where
      free_lock :
          ((unlock b).readers ≡ 0) × ((unlock b).writer ≡ false) × ((s.locks j).fix_count ≡ 0)
      free_lock = try_lock-unlock j b s e

      ready : loading j ≡ false
      ready = elim (Bool-cases (loading j)) [ inl l ↦ absurd (held j l free_lock.2) | inr l ↦ l ]

      in_h : 0 < count j (chain h)
      in_h = is_chained std_hash chain free h j rest s.blocks _ w.linked c

  -- No block of a list can be locked, or one was, and its frame is granted.
  abbrev pub Searches : List ℕ → Option (Answer D ℕ) → Type 0
  Searches is r =
      ((r ≡ none) × ((i : ℕ) → 0 < count i is → try_lock i s ≡ none))
      ⊎ (o : Answer D ℕ) × (r ≡ some o) × Answers (OnlyDisk device) Grant o

  Searches-cons :
      (j : ℕ) (js : List ℕ) (r : Option (Answer D ℕ))
      → try_lock j s ≡ none
      → Searches js r
      → Searches (j ∷ js) r
  Searches-cons j js r l (inl (none_left, all)) = inl (
    none_left,
    λ k on. elim (Bool-cases (j == k)) [
      | inl e ↦ subst (λ m. try_lock m s ≡ none) (==→≡ j k e) l
      | inr e ↦ all k (ground (arith, on, e))
    ],
  )
  Searches-cons j js r l (inr found) = inr found

  evict_after-Searches :
      (fuel h : ℕ) (is : List ℕ) (i : ℕ) (q : Option ℕ) (js : List ℕ)
      → chain h ≡ is ++ (i ∷ js)
      → s.blocks.next i ≡ q
      → IsChain s.blocks.next q js
      → length js < fuel
      → Searches js (evict_after device fuel i q s)
  unfolding evict_after
  evict_after-Searches zero h is i q js e n c enough = absurd (omega (arith, enough))
  evict_after-Searches (suc fuel) h is i q [] e n c enough =
      rw c (inl (refl, λ k on. absurd (omega (arith, on))))
  evict_after-Searches (suc fuel) h is i q (j ∷ js) e n (head, tail) enough = rw head (
      by_lock (try_lock j s) refl (
        evict_after-Searches fuel h (is ++ (i ∷ [])) j (s.blocks.next j) js
          (e ∙ sym (append_one is i (j ∷ js))) refl tail (omega (arith, enough))))
    where
      once :
          (l : List ℕ) (m : ℕ)
          → l ≡ is ++ (i ∷ j ∷ js)
          → count m l + count m free ≤ 1
          → count m (is ++ (i ∷ j ∷ js)) ≤ 1
      once l m e le = subst (λ k. count m k ≤ 1) e (omega (arith, le))

      by_lock :
          (r : Option Block)
          → try_lock j s ≡ r
          → Searches js (evict_after device fuel j (s.blocks.next j) s)
          → Searches (j ∷ js) (evict_after device (suc fuel) i (some j) s)
      by_lock none l later = rw (l, evict_after) (Searches-cons j js _ l later)
      by_lock (some b) l later =
          rw (l, evict_after)
            (inr (
              _,
              refl,
              take_victim-Grants h j (is ++ (i ∷ js))
                  (λ k. if k == i then s.blocks.next j else s.blocks.next k) s.blocks.bucket b
                  (subst
                    (λ l.
                      Cuts h j l (is ++ (i ∷ js)) s.blocks (set_next i (s.blocks.next j) s.blocks))
                    (sym e)
                    (set_next-Cuts h is i j js s.blocks
                      (λ m. once (chain h) m e (w.linked.once h m))
                      (subst (IsChain s.blocks.next (s.blocks.bucket h)) e (w.linked.chains h))))
                  l (set_next i (s.blocks.next j)) refl,
            ))

  pub evict_in-Searches :
      (fuel h : ℕ)
      → length (chain h) ≤ fuel
      → Searches (chain h) (evict_in device fuel h (s.blocks.bucket h) s)
  unfolding evict_in
  evict_in-Searches fuel h enough = by_chain (chain h) refl (w.linked.chains h)
    where
      by_chain :
          (l : List ℕ)
          → chain h ≡ l
          → IsChain s.blocks.next (s.blocks.bucket h) l
          → Searches l (evict_in device fuel h (s.blocks.bucket h) s)
      by_chain [] e c = rw c (inl (refl, λ k on. absurd (omega (arith, on))))
      by_chain (j ∷ js) e (head, tail) = rw head (by_lock (try_lock j s) refl)
        where
          shorter : (l : List ℕ) → l ≡ j ∷ js → length l ≤ fuel → length js < fuel
          shorter l e le = let le' = rw e at le in omega (arith, le')

          by_lock :
              (r : Option Block)
              → try_lock j s ≡ r
              → Searches (j ∷ js) (evict_in device fuel h (some j) s)
          by_lock none l =
              rw (l, evict_in)
                (Searches-cons j js _ l (
                  evict_after-Searches fuel h [] j (s.blocks.next j) js e refl tail
                    (shorter (chain h) e enough)))
          by_lock (some b) l =
              rw (l, evict_in)
                (inr (
                  _,
                  refl,
                  take_victim-Grants h j js s.blocks.next
                      (set_bucket h (s.blocks.next j) s.blocks).bucket b
                      (subst (λ l. Cuts h j l js s.blocks (set_bucket h (s.blocks.next j) s.blocks))
                        (sym e) (set_bucket-Cuts h j js s.blocks (head, tail)))
                      l (set_bucket h (s.blocks.next j)) refl,
                ))
