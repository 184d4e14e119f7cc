-- ===== src/Interpreter/Sp/Records.antt =====
-- A record that is added and filled is read back, and no other record is touched.
use master_team_projekt.Prelude.{
  ℕ, zero, suc, ◌+◌, ◌-◌, ◌≤◌, ◌<◌, ◌≡◌, refl, ◌⊎◌, ◌∙◌, ap, Option, none, some, List, [], ◌∷◌,
  ◌++◌, length, get_or, ◌&&◌, ltb, leb, ◌==◌, if◌then◌else◌, inl, inr, arith,
}
use mathlib.Core.Option
use master_team_projekt.Prelude.Word.{mod_32}
use master_team_projekt.Interpreter.Sp.{
  SpPage, add_new_record, align_8, get_record, memcpy, store_tuple, slot_size,
}
use master_team_projekt.Interpreter.Sp.Valid.{IsValid, Adds, add_new_record_lem}

pub memcpy-bytes :
    (p : SpPage) (at : ℕ) (bs : List ℕ) (k : ℕ)
    → (memcpy p at bs).bytes k
      ≡ (if leb at k && ltb k (at + length bs) then get_or bs (k - at) 0 else p.bytes k)
unfolding memcpy
memcpy-bytes p at [] k = ground arith
memcpy-bytes p at (b ∷ bs) k =
    memcpy-bytes (record p { bytes = λ j. if j == at then b else p.bytes j }) (at + 1) bs k
    ∙ one_more (k - at) refl
  where
    one_more :
        (d : ℕ)
        → k - at ≡ d
        → (if leb (at + 1) k && ltb k (at + 1 + length bs)
            then get_or bs (k - (at + 1)) 0
            else (if k == at then b else p.bytes k))
          ≡ (if leb at k && ltb k (at + suc (length bs))
              then get_or (b ∷ bs) (k - at) 0
              else p.bytes k)
    one_more zero e = rw e (ground arith)
    one_more (suc d) e = let e' : k - (at + 1) ≡ d = omega arith in rw (e, e') (ground arith)

memcpy-rest :
    (p : SpPage) (at : ℕ) (bs : List ℕ)
    → ((memcpy p at bs).slot ≡ p.slot) × ((memcpy p at bs).header ≡ p.header)
unfolding memcpy
memcpy-rest p at [] = (refl, refl)
memcpy-rest p at (b ∷ bs) =
    memcpy-rest (record p { bytes = λ k. if k == at then b else p.bytes k }) (at + 1) bs

-- The `n` bytes from `at` on.
pub read_bytes : SpPage → ℕ → ℕ → List ℕ
read_bytes p at zero = []
read_bytes p at (suc n) = p.bytes at ∷ read_bytes p (at + 1) n

read_bytes-eq :
    (p : SpPage) (at : ℕ) (bs : List ℕ)
    → ((i : ℕ) → i < length bs → p.bytes (at + i) ≡ get_or bs i 0)
    → read_bytes p at (length bs) ≡ bs
unfolding read_bytes
read_bytes-eq p at [] h = refl
read_bytes-eq p at (b ∷ bs) h =
    let rest =
      read_bytes-eq p (at + 1) bs (λ i below. ap p.bytes (omega arith) ∙ h (suc i) (omega arith)) in
    let first : p.bytes at ≡ b = ap p.bytes (omega arith) ∙ h 0 (omega arith) in rw (rest, first)

pub read_bytes-add :
    (p : SpPage) (at m n : ℕ)
    → read_bytes p at (m + n) ≡ read_bytes p at m ++ read_bytes p (at + m) n
unfolding read_bytes
read_bytes-add p at zero n =
    let e : at + 0 ≡ at = omega arith in let e' : 0 + n ≡ n = omega arith in rw (e, e') refl
read_bytes-add p at (suc m) n =
    let e : suc m + n ≡ suc (m + n) = omega arith in
    let e' : at + suc m ≡ at + 1 + m = omega arith in
    rw (e, e') (ap (λ bs. p.bytes at ∷ bs) (read_bytes-add p (at + 1) m n))

IsValid-congr :
    (page_size : ℕ) (p q : SpPage)
    → q.slot ≡ p.slot
    → q.header ≡ p.header
    → IsValid page_size p
    → IsValid page_size q
IsValid-congr page_size p q es eh v = record {
  small = v.small;
  tiles = rw eh v.tiles;
  inside = λ i below. rw (es, eh) (v.inside i (rw eh at below));
  apart = λ i j less below. rw es (v.apart i j less (rw eh at below));
}

-- What it means that a tuple was stored in the next slot.
pub record Stores (page_size : ℕ) (p : SpPage) (bs : List ℕ) (q : SpPage) : Type 0 where
  pub place : get_record q p.no_records ≡ some p.next_free_space
  pub content : read_bytes q p.next_free_space (length bs) ≡ bs
  pub earlier : (i : ℕ) → i < p.no_records → get_record q i ≡ get_record p i
  pub kept :
      (i k : ℕ) → i < p.no_records → k < (p.slot i).offset + (p.slot i).size → q.bytes k ≡ p.bytes k
  pub valid : IsValid page_size q

get_record-congr :
    (p q : SpPage) (i : ℕ) → q.slot ≡ p.slot → q.header ≡ p.header → get_record q i ≡ get_record p i
unfolding get_record
get_record-congr p q i es eh = rw (es, eh)

get_record-Adds :
    (page_size size i : ℕ) (p : SpPage) (r : Option ℕ × ℕ × SpPage)
    → Adds page_size p size r
    → i < p.no_records + 1
    → get_record r.2 i ≡ (if i == p.no_records then some p.next_free_space else get_record p i)
unfolding get_record
get_record-Adds page_size size i p r a below = ground (arith, a.one_more, a.fresh, a.others i)

pub Adds-Stores :
    (page_size : ℕ) (p : SpPage) (bs : List ℕ) (r : Option ℕ × ℕ × SpPage)
    → IsValid page_size p
    → length bs + 7 < mod_32
    → Adds page_size p (length bs) r
    → Stores page_size p bs (memcpy r.2 p.next_free_space bs)
Adds-Stores page_size p bs r v small a = record {
  place =
      found p.no_records
      ∙ get_record-Adds page_size (length bs) p.no_records p r a (omega arith)
      ∙ ground arith;
  content = read_bytes-eq q p.next_free_space bs (λ i below.
      memcpy-bytes r.2 p.next_free_space bs (p.next_free_space + i)
      ∙ let e : p.next_free_space + i - p.next_free_space ≡ i = omega arith in rw e (ground arith));
  earlier = λ i below.
      found i ∙ get_record-Adds page_size (length bs) i p r a (omega arith) ∙ ground arith;
  kept = λ i k below lies.
      memcpy-bytes r.2 p.next_free_space bs k
      ∙ ground (arith, v.inside i below, ap (λ (m : ℕ → ℕ). m k) a.bytes);
  valid = IsValid-congr page_size r.2 q rest.0 rest.1 a.valid;
}
  where
    q : SpPage
    q = memcpy r.2 p.next_free_space bs

    rest : (q.slot ≡ (r.2).slot) × (q.header ≡ (r.2).header)
    rest = memcpy-rest r.2 p.next_free_space bs

    found : (i : ℕ) → get_record q i ≡ get_record r.2 i
    found i = get_record-congr r.2 q i rest.0 rest.1

-- On a valid page a tuple of bytes is stored exactly if its aligned size and one slot fit into the
-- free bytes; then the new record is found and holds the tuple, every earlier record is found at its
-- place with its bytes unchanged, and the page is valid.
pub store_tuple-Stores :
    (page_size : ℕ) (p : SpPage) (bs : List ℕ)
    → IsValid page_size p
    → length bs + 13 < mod_32
    → ((align_8 (length bs) + slot_size ≤ p.free_space)
        × (q : SpPage) × (store_tuple p bs ≡ some q)
        × Stores page_size p bs q)
      ⊎ ((p.free_space < align_8 (length bs) + slot_size) × (store_tuple p bs ≡ none))
unfolding store_tuple
store_tuple-Stores page_size p bs v small =
    elim (add_new_record_lem page_size p (length bs) v small) [
      | inr (full, e, _) ↦
          inr (full, ap (Option.map (λ at. memcpy (add_new_record p (length bs)).2 at bs)) e)
      | inl (room, a) ↦ inl (
        room,
        memcpy (add_new_record p (length bs)).2 p.next_free_space bs,
        ap (Option.map (λ at. memcpy (add_new_record p (length bs)).2 at bs)) a.place,
        Adds-Stores page_size p bs _ v (omega arith) a,
      )
    ]
