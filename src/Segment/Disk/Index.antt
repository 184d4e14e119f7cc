-- ===== src/Segment/Disk/Index.antt =====
-- The index pages that `storeSegment` writes, page by page.
use master_team_projekt.Prelude.{
  ℕ, zero, suc, ◌+◌, ◌≤◌, ◌<◌, ◌≡◌, ◌≢◌, refl, sym, ap, ◌∙◌, subst, List, [], ◌∷◌, ◌++◌, length,
  take, drop, min, arith,
}
use master_team_projekt.Segment.State.{IndexPage, set_content, set_content_self, set_content_ne}
use master_team_projekt.Segment.Fsm.Chain.{count, head_or}
use master_team_projekt.Segment.Disk.{write_entries, index_header, store_from, read_entries}

-- What the inner loop promises.
record Writes (room k : ℕ) (ps : List ℕ) (e : ℕ → ℕ) (w : ℕ × List ℕ × (ℕ → ℕ)) : Type 0 where
  number : w.0 ≡ k + min room (length ps)
  left : w.1 ≡ drop room ps
  entries : read_entries (min room (length ps)) k w.2 ≡ take room ps
  before : (i : ℕ) → i < k → w.2 i ≡ e i

min-suc : (a b : ℕ) → min (suc a) (suc b) ≡ suc (min a b)
min-suc a b = omega arith

write_entries-Writes :
    (room k : ℕ) (ps : List ℕ) (e : ℕ → ℕ) → Writes room k ps e (write_entries room k ps e)
unfolding write_entries read_entries
write_entries-Writes zero k ps e =
    let z : min 0 (length ps) ≡ 0 = omega arith in
    record { number = omega arith; left = refl; entries = rw z refl; before = λ i below. refl }
write_entries-Writes (suc room) k [] e =
    let z : min (suc room) 0 ≡ 0 = omega arith in
    record { number = omega arith; left = refl; entries = rw z refl; before = λ i below. refl }
write_entries-Writes (suc room) k (p ∷ ps) e =
    let w = write_entries-Writes room (k + 1) ps (set_content k p e) in
    let first = w.before k (omega arith) ∙ set_content_self k p e in
    record {
      number = w.number ∙ omega arith;
      left = w.left;
      entries = rw (min-suc room (length ps), first, w.entries) refl;
      before = λ i below.
          w.before i (omega (arith, below)) ∙ set_content_ne k p e i (omega (arith, below));
    }

-- The pages `js` of `content` are linked, the last to page 0, and hold the numbers `ps`, as many of them as
-- fit on each.
abbrev pub Stored : ℕ → ℕ → ℕ → (ℕ → IndexPage) → List ℕ → List ℕ → Type 0
Stored per_page first_fsm seg_id content [] ps = Unit
Stored per_page first_fsm seg_id content (j ∷ js) ps =
    let p = content j in
    (p.header.next_index_page ≡ head_or js 0)
    × (p.header.first_fsm ≡ first_fsm)
    × (p.header.seg_id ≡ seg_id)
    × (read_entries p.header.curr_size 0 p.entries ≡ take per_page ps)
    × Stored per_page first_fsm seg_id content js (drop per_page ps)

module _ (per_page first_fsm seg_id file_id : ℕ) where
  stored_page : ℕ → ℕ → List ℕ → (ℕ → IndexPage) → IndexPage
  stored_page j next ps content =
      let w = write_entries per_page 0 ps (content j).entries in
      record { entries = w.2; header = index_header w.0 first_fsm j next seg_id file_id }

  abbrev pub store : List ℕ → List ℕ → (ℕ → IndexPage) → ℕ → IndexPage
  store js = store_from per_page first_fsm seg_id file_id (js ++ (0 ∷ []))

  -- One round of the outer loop.
  store_step :
      (j : ℕ) (js ps : List ℕ) (content : ℕ → IndexPage)
      → store (j ∷ js) ps content
        ≡ store js
            (drop per_page ps)
            (set_content j (stored_page j (head_or js 0) ps content) content)
  unfolding stored_page store_from
  store_step j [] ps content = refl
  store_step j (k ∷ ks) ps content =
      rw (write_entries-Writes per_page 0 ps (content j).entries).left refl

  store-others :
      (js ps : List ℕ) (content : ℕ → IndexPage) (m : ℕ)
      → count m js ≡ 0
      → store js ps content m ≡ content m
  unfolding store_from
  store-others [] ps content m h = refl
  store-others (j ∷ js) ps content m h =
      let ne : m ≢ j = λ e. ground (arith, h, e) in
      ap (λ c. c m) (store_step j js ps content)
      ∙ store-others js (drop per_page ps) _ m (omega (arith, h))
      ∙ set_content_ne j _ content m ne

  pub store-Stored :
      (js ps : List ℕ) (content : ℕ → IndexPage)
      → ((m : ℕ) → count m js ≤ 1)
      → Stored per_page first_fsm seg_id (store js ps content) js ps
  unfolding stored_page
  store-Stored [] ps content once = tt
  store-Stored (j ∷ js) ps content once =
      subst (λ c. Stored per_page first_fsm seg_id c (j ∷ js) ps) (sym (store_step j js ps content))
        (
          ap (λ p. p.header.next_index_page) here,
          ap (λ p. p.header.first_fsm) here,
          ap (λ p. p.header.seg_id) here,
          rw here entries,
          store-Stored js (drop per_page ps) _ (λ m. omega (arith, once m)),
        )
    where
      w : Writes per_page 0 ps (content j).entries (write_entries per_page 0 ps (content j).entries)
      w = write_entries-Writes per_page 0 ps (content j).entries

      here :
          store js
            (drop per_page ps)
            (set_content j (stored_page j (head_or js 0) ps content) content)
            j
          ≡ stored_page j (head_or js 0) ps content
      here =
          let none_left : count j js ≡ 0 = ground (arith, once j) in
          store-others js (drop per_page ps) _ j none_left ∙ set_content_self j _ content

      entries :
          let p = stored_page j (head_or js 0) ps content in
          read_entries p.header.curr_size 0 p.entries ≡ take per_page ps
      entries =
          let n : (write_entries per_page 0 ps (content j).entries).0 ≡ min per_page (length ps) =
            w.number ∙ omega arith in
          rw n w.entries
