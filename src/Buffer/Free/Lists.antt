-- ===== src/Buffer/Free/Lists.antt =====
-- `FreeBCBs`: the list of free control blocks.
use master_team_projekt.Prelude.{
  count, ℕ, zero, suc, ◌+◌, ◌≤◌, ◌<◌, ◌≡◌, refl, sym, ap, ◌∙◌, subst, leb, ltb, ◌&&◌, if◌then◌else◌,
  Option, none, some, List, [], ◌∷◌, length, arith,
}
use master_team_projekt.Prelude.Word.{mod_64, sub_64}
use master_team_projekt.Buffer.Free.{Blocks, set_next, link_from, init_bcbs, pop_bcb, insert_bcb}
use master_team_projekt.Buffer.Free.Chain.{IsChain, IsAbsent, IsChain-relink}

-- The list of free control blocks, with their number.
pub record IsFreeList (s : Blocks) (is : List ℕ) : Type 0 where
  pub chain : IsChain s.next s.free_bcb_list is
  pub counted : s.no_free_bcbs ≡ length is

-- What `popFromList` does to the list.
pub record Pops (s : Blocks) (i : ℕ) (is : List ℕ) : Type 0 where
  pub s' : Blocks
  pub returns : pop_bcb s ≡ some (i, s')
  pub list : IsFreeList s' is
  pub unlinked : s'.next i ≡ none

-- On a list of free control blocks without a cycle `popFromList` hands out the first, which is
-- linked to no other afterwards, and the others remain in their order; on an empty list it throws.
pub pop_bcb-Pops :
    (s : Blocks) (i : ℕ) (is : List ℕ)
    → IsFreeList s (i ∷ is)
    → IsAbsent i is
    → length is + 1 < mod_64
    → Pops s i is
unfolding pop_bcb
pop_bcb-Pops s i is w absent small = record {
  s' =
      set_next i none
        (record s { free_bcb_list = s.next i; no_free_bcbs = sub_64 s.no_free_bcbs 1 });
  returns = rw w.chain.0 refl;
  list = record {
    chain = IsChain-relink s.next i none (s.next i) is absent w.chain.1;
    counted = omega (arith, w.counted, small);
  };
  unlinked = ground arith;
}

-- A control block that is not in the list becomes its first.
pub insert_bcb-IsFreeList :
    (s : Blocks) (i : ℕ) (is : List ℕ)
    → IsFreeList s is
    → IsAbsent i is
    → length is + 1 < mod_64
    → IsFreeList (insert_bcb i s) (i ∷ is)
unfolding insert_bcb
insert_bcb-IsFreeList s i is w absent small = record {
  chain = (
    refl,
    subst (λ r. IsChain (set_next i s.free_bcb_list s).next r is) (ground arith)
        (IsChain-relink s.next i s.free_bcb_list s.free_bcb_list is absent w.chain),
  );
  counted = omega (arith, w.counted, small);
}

-- The numbers from `i` on.
pub upwards : ℕ → ℕ → List ℕ
upwards zero i = []
upwards (suc n) i = i ∷ upwards n (i + 1)

pub count-upwards : (n i k : ℕ) → (count k (upwards n i) ≤ 1) × (k < i → count k (upwards n i) ≡ 0)
unfolding upwards
count-upwards zero i k = (omega arith, λ lt. refl)
count-upwards (suc n) i k = ground (arith, count-upwards n (i + 1) k)

-- After the loop, the block `new` and `n` more are linked in their order; no other link changes.
link_from-next :
    (n new j : ℕ) (s : Blocks)
    → (link_from n (new + 1) new s).next j
      ≡ (if leb new j && ltb j (new + n) then some (j + 1) else s.next j)
unfolding link_from
link_from-next zero new j s = ground arith
link_from-next (suc n) new j s =
    link_from-next n (new + 1) j (set_next new (some (new + 1)) s) ∙ ground arith

-- The loop changes links only.
link_from-same :
    (n i new : ℕ) (s : Blocks)
    → link_from n i new s ≡ record s { next = (link_from n i new s).next }
unfolding link_from
link_from-same zero i new s = refl
link_from-same (suc n) i new s = link_from-same n (i + 1) i (set_next new (some i) s)

pub init_bcbs-same :
    (n : ℕ) (s : Blocks)
    → init_bcbs n s
      ≡ record s { next = (init_bcbs n s).next; free_bcb_list = some 0; no_free_bcbs = n }
unfolding init_bcbs
init_bcbs-same n s = link_from-same n 0 0 _

link_from-others :
    (n i new : ℕ) (s : Blocks)
    → ((link_from n i new s).free_bcb_list ≡ s.free_bcb_list)
      × ((link_from n i new s).no_free_bcbs ≡ s.no_free_bcbs)
unfolding link_from
link_from-others zero i new s = (refl, refl)
link_from-others (suc n) i new s = link_from-others n (i + 1) i (set_next new (some i) s)

upwards-IsChain :
    (n i : ℕ) (next : ℕ → Option ℕ)
    → ((j : ℕ) → i ≤ j → j < i + n → next j ≡ some (j + 1))
    → next (i + n) ≡ none
    → IsChain next (some i) (upwards (suc n) i)
unfolding upwards
upwards-IsChain zero i next links end = (refl, subst (λ j. next j ≡ none) (omega arith) end)
upwards-IsChain (suc n) i next links end = (
  refl,
  subst (λ q. IsChain next q (upwards (suc n) (i + 1))) (sym (links i (omega arith) (omega arith)))
      (upwards-IsChain n (i + 1) next (λ j lo hi. links j (omega arith) (omega arith))
        (subst (λ j. next j ≡ none) (omega arith) end)),
)

length-upwards : (n i : ℕ) → length (upwards n i) ≡ n
unfolding upwards
length-upwards zero i = refl
length-upwards (suc n) i = ap suc (length-upwards n (i + 1))

-- With two control blocks or more, the initial list holds all of them in the order of their numbers.
pub init_bcbs-IsFreeList :
    (n : ℕ) (s : Blocks) → IsFreeList (init_bcbs (suc (suc n)) s) (upwards (suc (suc n)) 0)
unfolding init_bcbs link_from
init_bcbs-IsFreeList n s = record {
  chain =
      subst (λ q. IsChain linked.next q (upwards (suc (suc n)) 0)) (sym others.0)
        (upwards-IsChain (suc n) 0 linked.next
          (λ j lo hi. link_from-next (suc n) 0 j made ∙ ground arith)
          (link_from-next (suc n) 0 (0 + suc n) made ∙ ground arith));
  counted = others.1 ∙ sym (length-upwards (suc (suc n)) 0);
}
  where
    made : Blocks
    made = set_next 0 (some 0) (record s {
      next = λ j. if ltb j (suc (suc n)) then none else s.next j;
      free_bcb_list = some 0;
      no_free_bcbs = suc (suc n);
    })

    linked : Blocks
    linked = link_from (suc n) 1 0 made

    others : (linked.free_bcb_list ≡ some 0) × (linked.no_free_bcbs ≡ suc (suc n))
    others = link_from-others (suc n) 1 0 made

-- With one control block the loop links it to itself, and it is handed out twice: the second time as
-- well, `popFromList` returns block 0 and does not throw.
pub init_bcbs-one :
    (s : Blocks)
    → (t : Blocks) × (u : Blocks) × (pop_bcb (init_bcbs 1 s) ≡ some (0, t))
      × (pop_bcb t ≡ some (0, u))
unfolding init_bcbs link_from pop_bcb
init_bcbs-one s = (_, _, refl, refl)
