-- ===== src/Segment/Disk/Load.antt =====
-- What `loadSegment` reads from linked pages.
use master_team_projekt.Prelude.{
  ℕ, zero, suc, ◌+◌, ◌*◌, ◌<◌, ◌≡◌, refl, sym, ap, ◌∙◌, List, [], ◌∷◌, ◌++◌, length, take, drop,
  Option, some, false, ◌==◌, arith,
}
use mathlib.Core.List.{append_assoc, append-nil}
use master_team_projekt.Segment.State.{Segment, done}
use master_team_projekt.Segment.Fsm.Chain.{count, head_or, Linked}
use master_team_projekt.Segment.Disk.{load_index, load_fsm, drop_zero}
use master_team_projekt.Segment.Disk.Index.{Stored}

-- What the index pages hold together.
pub loaded : ℕ → List ℕ → List ℕ → List ℕ
loaded per_page [] ps = []
loaded per_page (j ∷ js) ps = take per_page ps ++ loaded per_page js (drop per_page ps)

take-add : (a b : ℕ) (xs : List ℕ) → take (a + b) xs ≡ take a xs ++ take b (drop a xs)
take-add zero b xs = let e : 0 + b ≡ b = omega arith in rw e refl
take-add (suc a) b [] = let e : suc a + b ≡ suc (a + b) = omega arith in rw e (nothing b)
  where
    nothing : (b : ℕ) → ◌≡◌ {A = List ℕ} [] (take b [])
    nothing zero = refl
    nothing (suc b) = refl
take-add (suc a) b (x ∷ xs) =
    let e : suc a + b ≡ suc (a + b) = omega arith in rw e (ap (λ ys. x ∷ ys) (take-add a b xs))

pub loaded-take :
    (per_page : ℕ) (js ps : List ℕ) → loaded per_page js ps ≡ take (length js * per_page) ps
unfolding loaded
loaded-take per_page [] ps = let e : 0 * per_page ≡ 0 = omega arith in rw e refl
loaded-take per_page (j ∷ js) ps =
    let e : suc (length js) * per_page ≡ per_page + length js * per_page = omega arith in
    rw e (
      ap (λ qs. take per_page ps ++ qs) (loaded-take per_page js (drop per_page ps))
      ∙ sym (take-add per_page (length js * per_page) ps))

not_zero : (j : ℕ) (js : List ℕ) → count 0 (j ∷ js) ≡ 0 → (j == 0) ≡ false
not_zero j js h = ground (arith, h)

abbrev pub first_or : List ℕ → ℕ → Option ℕ → Option ℕ
first_or [] f o = o
first_or (j ∷ js) f o = some f

abbrev pub seg_or : List ℕ → ℕ → ℕ → ℕ
seg_or [] seg_id old = old
seg_or (j ∷ js) seg_id old = seg_id

first_or_same : (js : List ℕ) (f : ℕ) → first_or js f (some f) ≡ some f
first_or_same [] f = refl
first_or_same (j ∷ js) f = refl

seg_or_same : (js : List ℕ) (f : ℕ) → seg_or js f f ≡ f
seg_or_same [] f = refl
seg_or_same (j ∷ js) f = refl

module _ {P : Type 0} where
  pub load_index-Stored :
      (per_page first_fsm seg_id fuel : ℕ) (js ps : List ℕ) (o : Option ℕ) (s : Segment P)
      → Stored per_page first_fsm seg_id s.index_content js ps
      → count 0 js ≡ 0
      → length js < fuel
      → load_index fuel (head_or js 0) o s
        ≡ done (first_or js first_fsm o) (record s {
          index_pages = s.index_pages ++ js;
          pages = s.pages ++ loaded per_page js ps;
          seg_id = seg_or js seg_id s.seg_id;
        })
  unfolding load_index loaded
  load_index-Stored per_page first_fsm seg_id zero js ps o s st nz enough =
      absurd (omega (arith, enough))
  load_index-Stored per_page first_fsm seg_id (suc fuel) [] ps o s st nz enough =
      rw (append-nil s.index_pages, append-nil s.pages) refl
  load_index-Stored per_page first_fsm seg_id (suc fuel) (j ∷ js) ps o s (a, b, c, d, st) nz
        enough =
      rw (not_zero j js nz, a, b, c, d)
        (load_index-Stored per_page first_fsm seg_id fuel js (drop per_page ps) (some first_fsm) _
            st (omega (arith, nz)) (omega (arith, enough))
          ∙ rw
              (
                first_or_same js first_fsm,
                seg_or_same js seg_id,
                append_assoc s.index_pages (j ∷ []) js,
                append_assoc s.pages (take per_page ps) (loaded per_page js (drop per_page ps)),
              )
              refl)

  pub load_fsm-Linked :
      (fuel : ℕ) (fs pre : List ℕ) (s : Segment P)
      → Linked s.fsm_content fs
      → count 0 fs ≡ 0
      → length fs < fuel
      → load_fsm fuel (head_or fs 0) (record s { fsm_pages = pre ++ (head_or fs 0 ∷ []) })
        ≡ done tt (record s { fsm_pages = pre ++ (fs ++ (0 ∷ [])) })
  unfolding load_fsm
  load_fsm-Linked zero fs pre s st nz enough = absurd (omega (arith, enough))
  load_fsm-Linked (suc fuel) [] pre s st nz enough = refl
  load_fsm-Linked (suc fuel) (f ∷ fs) pre s (a, st) nz enough =
      rw (not_zero f fs nz, a)
        (load_fsm-Linked fuel fs (pre ++ (f ∷ [])) s st (omega (arith, nz)) (omega (arith, enough))
          ∙ ap (λ l. done tt (record s { fsm_pages = l }))
              (append_assoc pre (f ∷ []) (fs ++ (0 ∷ []))))

pub drop_zero-append : (fs : List ℕ) → drop_zero (fs ++ (0 ∷ [])) ≡ fs
unfolding drop_zero
drop_zero-append [] = refl
drop_zero-append (f ∷ []) = refl
drop_zero-append (f ∷ (g ∷ gs)) = ap (λ l. f ∷ l) (drop_zero-append (g ∷ gs))
