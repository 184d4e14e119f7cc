-- ===== src/Segment/Records/Insert.antt =====
-- What `insertTuple` does to the tuples of a segment.
use master_team_projekt.Prelude.{
  ℕ, ◌+◌, ◌≤◌, ◌<◌, ◌≡◌, refl, subst, List, [], ◌∷◌, ◌++◌, Option, none, ◌==◌, length, Bool-cases,
  ltb, ltb→lt, ==→≡, ==→≢, inl, inr, ◌⊎◌, ◌-◌, ◌*◌, ◌/◌, arith,
}
use master_team_projekt.Prelude.Word.{mod_32, sub_32}
use master_team_projekt.Infra.Types.{TupleId}
use master_team_projekt.Infra.Headers.{sp_header_size}
use master_team_projekt.Interpreter.Sp.{SpPage, slot_size, align_8, add_new_record, memcpy}
use master_team_projekt.Interpreter.Sp.Valid.{IsValid, Adds, add_new_record_lem, align_8_bounds}
use master_team_projekt.Interpreter.Sp.Records.{Stores, Adds-Stores}
use master_team_projekt.Segment.Space.{Space, IsSpace}
use master_team_projekt.Segment.State.{Segment, bind, set_content_self}
use master_team_projekt.Segment.Fsm.{Choice}
use master_team_projekt.Segment.Fsm.Chain.{count}
use master_team_projekt.Segment.Fsm.Owned.{Ends, Exhausted, Ends-bind, Ends-weaken}
use master_team_projekt.Segment.Fsm.Reserve.{Refused, Chosen}
use master_team_projekt.Segment.Fsm.Choose.{IsTooLarge, get_free_page-over, get_free_page-Chosen}
use master_team_projekt.Segment.Records.{
  prepared, write_sp, fill_record, push_tid, get_free_sp_page, insert_sized, insert_tuple,
}
use master_team_projekt.Segment.Records.Ready.{
  HoldsTuples, NotInserted, IsCrowded, KeepsRecords, Inserted, Ready, Chosen-Ready,
}

module _ {P : Type 0} (space : Space P) (laws : IsSpace space) where
  -- A page of the segment was written: the segment holds tuples as before if the page is valid.
  written-HoldsTuples :
      (s : Segment P) (c : Choice) (t : Segment P) (q : SpPage) (tids : List TupleId)
      → HoldsTuples space laws s
      → Ready space laws s c t
      → IsValid t.page_size q
      → HoldsTuples space laws (record (write_sp c.page_no q t) { tids = tids })
  written-HoldsTuples s c t q tids h r v = record {
    ready = (
      record {
        good = r.holds.0.good;
        once = r.holds.0.once;
        taken = r.holds.0.taken;
        not_zero = r.holds.0.not_zero;
        linked = r.holds.0.linked;
      },
      r.holds.1,
    );
    valid = λ n m. elim (Bool-cases (n == c.page_no)) [
      | inl e ↦ rw e v
      | inr e ↦ rw (e, r.keeps.0, r.keeps.3) (h.valid n (r.fewer n m (==→≢ n c.page_no e)))
    ];
    large = rw r.keeps.3 h.large;
    small = rw r.keeps.3 h.small;
  }

  filled :
      (s : Segment P) (c : Choice) (t : Segment P) (bs : List ℕ)
      → HoldsTuples space laws s
      → Ready space laws s c t
      → (length bs + 7) / 8 * 8 ≤ sub_32 s.page_size (sp_header_size + slot_size)
      → length bs + 13 < mod_32
      → Ends
          (Exhausted space laws)
          (Inserted space laws s bs)
          (NotInserted space laws s bs)
          (bind (fill_record c.page_no bs t (add_new_record (prepared c t) (length bs))) push_tid)
  filled s c t bs h r le small =
      by_room (add_new_record (prepared c t) (length bs))
        (add_new_record_lem t.page_size (prepared c t) (length bs) r.is_valid small)
    where
      stored :
          (number : ℕ) (q : SpPage)
          → Stores t.page_size (prepared c t) bs (memcpy q (prepared c t).next_free_space bs)
          → number ≡ (prepared c t).no_records
          → (prepared c t).next_free_space + length bs ≤ t.page_size
          → let tid : TupleId = record { page_no = c.page_no; tuple_no = number } in
            Inserted space laws s bs tid
              (record (write_sp c.page_no (memcpy q (prepared c t).next_free_space bs) t) {
                tids = t.tids ++ (tid ∷ []);
              })
      stored number q st e fits =
          let m = memcpy q (prepared c t).next_free_space bs in
          let here = set_content_self c.page_no m t.sp_content in
          record {
            holds = written-HoldsTuples s c t m _ h r st.valid;
            on_page = r.on_page;
            place = (prepared c t).next_free_space;
            found = rw (here, e) st.place;
            content = rw here st.content;
            inside = fits;
            tids = rw r.keeps.2 refl;
            others = λ n on. (
              r.more n on,
              elim (Bool-cases (n == c.page_no)) [
                | inl i ↦ rw i (kept m st n (==→≡ n c.page_no i) on)
                | inr i ↦
                    rw (i, r.keeps.0)
                      (record { place = λ j below. refl; bytes = λ j k below lies. refl })
              ],
            );
            unused = λ on.
                let before : (prepared c t).no_records ≤ number = omega (arith, e) in
                let same = r.same on in rw same at before;
          }
        where
          kept :
              (m : SpPage)
              → Stores t.page_size (prepared c t) bs m
              → (n : ℕ) → n ≡ c.page_no
              → 0 < count n s.pages
              → KeepsRecords (s.sp_content n) m
          kept m st n i on =
              let whole = rw i at on in
              rw i (
                subst (λ p. KeepsRecords p m) (r.same whole)
                  (record { place = st.earlier; bytes = st.kept }))

      crowded :
          (prepared c t).free_space < align_8 (length bs) + slot_size
          → (0 < count c.page_no s.pages)
            ⊎ ((prepared c t).free_space ≡ s.page_size - sp_header_size)
          → IsCrowded bs s
      crowded full (inl on) = (
        c.page_no,
        on,
        subst (λ p. p.free_space < align_8 (length bs) + slot_size) (r.same on) full,
      )
      crowded full (inr whole) = absurd (omega (arith, full, whole, le, small, h.large, h.small))

      by_room :
          (a : Option ℕ × ℕ × SpPage)
          → (align_8 (length bs) + slot_size ≤ (prepared c t).free_space)
              × Adds t.page_size (prepared c t) (length bs) a
            ⊎ ((prepared c t).free_space < align_8 (length bs) + slot_size)
              × (a.0 ≡ none)
              × (a.2 ≡ prepared c t)
          → Ends
              (Exhausted space laws)
              (Inserted space laws s bs)
              (NotInserted space laws s bs)
              (bind (fill_record c.page_no bs t a) push_tid)
      by_room (o, number, q) (inr (full, is_none, same)) = rw is_none (record {
        holds = written-HoldsTuples s c t q t.tids h r (rw same r.is_valid);
        tids = r.keeps.2;
        why = inr (crowded full r.origin);
      })
      by_room (o, number, q) (inl (room, a)) = rw a.place (
          stored number q
            (Adds-Stores t.page_size (prepared c t) bs (o, number, q) r.is_valid
              (omega (arith, small)) a)
            a.number
            (omega
              (arith, room, r.is_valid.tiles, align_8_bounds (length bs) (omega (arith, small)))))

  Refused-HoldsTuples :
      (why : Type 0) (s t : Segment P)
      → HoldsTuples space laws s
      → Refused space laws why s t
      → HoldsTuples space laws t
  Refused-HoldsTuples why s t h (w, k, same, y) = record {
    ready = w;
    valid = λ n m. rw (k.0, k.3) (h.valid n (rw same at m));
    large = rw k.3 h.large;
    small = rw k.3 h.small;
  }

  -- Let the pages of a segment be its own, its management pages linked and its data pages valid slotted pages,
  -- and let the partition keep what `IsSpace` says. Then `insertTuple` returns the id of a new record that
  -- holds the bytes of the tuple, while the records of all data pages stay. It throws an exception of the segment
  -- only if the tuple exceeds the fifteen buckets of a page or a data page of the segment is too full for it, and
  -- one of the partition only if the partition, in order, hands out no page. Unless the partition throws, the
  -- segment is left as it has to be.
  pub insert_tuple-Inserted :
      (bs : List ℕ) (s : Segment P)
      → HoldsTuples space laws s
      → length bs + 13 < mod_32
      → Ends
          (Exhausted space laws)
          (Inserted space laws s bs)
          (NotInserted space laws s bs)
          (insert_tuple space bs s)
  unfolding insert_tuple insert_sized get_free_sp_page
  insert_tuple-Inserted bs s h small = elim (Bool-cases (ltb offered asked)) [
    | inl over ↦
        rw (get_free_page-over space asked (sp_header_size + slot_size) s (ltb→lt _ _ over))
          (record { holds = h; tids = refl; why = inl (omega (arith, ltb→lt _ _ over)) })
    | inr within ↦
        Ends-bind (Exhausted space laws) (Chosen space laws s) (Inserted space laws s bs)
          (NotInserted space laws s bs) _ _
          (Ends-weaken (Exhausted space laws) (Chosen space laws s) (Refused space laws Large s)
            (NotInserted space laws s bs) _
            (λ t r. record {
              holds = Refused-HoldsTuples Large s t h r;
              tids = (r.1).2;
              why = inl r.3;
            })
            (get_free_page-Chosen space laws asked (sp_header_size + slot_size) s h.ready))
          (λ c t chosen.
            filled s c t bs h (Chosen-Ready space laws s c t h chosen) (ground (arith, within))
              small)
  ]
    where
      offered : ℕ
      offered = sub_32 s.page_size (sp_header_size + slot_size)

      asked : ℕ
      asked = (length bs + 7) / 8 * 8

      Large : Type 0
      Large = IsTooLarge offered asked
