-- ===== src/Interpreter/Fsip/Init.antt =====
-- `initNewFSIP` of interpreter_fsip.cc.
use master_team_projekt.Prelude.{
  ℕ, zero, suc, ◌+◌, ◌-◌, ◌/◌, ◌%◌, ◌≤◌, ◌<◌, ◌≡◌, refl, ◌∙◌, leb, min, arith,
}
use master_team_projekt.Prelude.Word.{mod_32}
use master_team_projekt.Prelude.Bits.{Bits, zeros, ones, shift_left, write_word}
use master_team_projekt.Infra.Headers.{fsip_header_size}
use master_team_projekt.Interpreter.Fsip.Bitmap.{count_free}
use master_team_projekt.Interpreter.Fsip.Valid.{IsValid, capacity}
use master_team_projekt.Interpreter.Fsip.{FsipPage, init_new_fsip, fill_words}
use master_team_projekt.Interpreter.Fsip.Words.{fill_words-at}

-- The words that `initNewFSIP` writes are zeros below bit `no_blocks` and ones from there on.
init_new_fsip-bits :
    (page_size : ℕ) (p : FsipPage) (lsn page_index pid no_blocks k : ℕ)
    → no_blocks ≤ capacity page_size
    → k < capacity page_size
    → (init_new_fsip page_size p lsn page_index pid no_blocks).bits k ≡ leb no_blocks k
unfolding init_new_fsip
init_new_fsip-bits page_size p lsn page_index pid no_blocks k fits inside = ground (
  arith,
  fill_words-at (no_blocks / 32) 0 zeros p.bits k,
  fill_words-at ((page_size - fsip_header_size) / 4 - (no_blocks / 32 + 1)) (no_blocks / 32 + 1)
      ones
      (write_word 32 (fill_words (no_blocks / 32) 0 zeros p.bits) (no_blocks / 32)
        (shift_left ones (no_blocks % 32)))
      k,
)

-- The number of free bits, when the bits below `b` are the free ones.
count_free-below :
    (n b : ℕ) (m : Bits) → ((k : ℕ) → k < n → m k ≡ leb b k) → count_free n m ≡ min n b
count_free-below zero b m h = omega arith
count_free-below (suc n) b m h =
    ground (arith, h n (omega arith), count_free-below n b m (λ k p. h k (omega arith)))

-- A new indicator page for as many pages as fit on it has all of them free and every other bit
-- marked as in use, counts them, and is valid.
pub init_new_fsip-IsValid :
    (page_size : ℕ) (p : FsipPage) (lsn page_index pid no_blocks : ℕ)
    → no_blocks ≤ capacity page_size
    → capacity page_size < mod_32
    → let q = init_new_fsip page_size p lsn page_index pid no_blocks in
      IsValid page_size q
      × (q.free_blocks_count ≡ no_blocks)
      × (q.managed_pages ≡ no_blocks)
      × (q.basic_header.page_index ≡ page_index)
      × ((k : ℕ) → k < capacity page_size → q.bits k ≡ leb no_blocks k)
unfolding init_new_fsip
init_new_fsip-IsValid page_size p lsn page_index pid no_blocks fits small = (
  record {
    small = small;
    within = fits;
    closed = λ i lo hi. bits i hi ∙ ground arith;
    counted = omega (arith, count_free-below (capacity page_size) no_blocks _ bits);
    first = λ some. record {
      from = omega arith;
      below = omega (arith, fits, some);
      is_free = bits 0 (omega (arith, fits, some)) ∙ ground arith;
      least = λ i lo hi. absurd (omega arith);
    };
  },
  refl,
  refl,
  refl,
  bits,
)
  where
    bits :
        (k : ℕ)
        → k < capacity page_size
        → (init_new_fsip page_size p lsn page_index pid no_blocks).bits k ≡ leb no_blocks k
    bits k h = init_new_fsip-bits page_size p lsn page_index pid no_blocks k fits h
