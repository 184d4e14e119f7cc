-- ===== src/Interpreter/Fsm/Init.antt =====
-- `initNewFSM` of interpreter_fsm.cc: which bytes of the page it clears.
use master_team_projekt.Prelude.{
  ℕ, zero, suc, ◌+◌, ◌-◌, ◌*◌, ◌/◌, ◌<◌, ◌≡◌, ◌&&◌, ltb, leb, ◌==◌, if◌then◌else◌, arith,
}
use master_team_projekt.Infra.Headers.{fsm_header_size}
use master_team_projekt.Interpreter.Fsm.{
  FsmPage, Bytes, clear_words, clear_word_64, init_new_fsm, get_page_status,
}

clear_words-at :
    (n i : ℕ) (m : Bytes) (k : ℕ)
    → clear_words n i m k ≡ (if leb 8 k && leb (i * 8) k && ltb k ((i + n) * 8) then 0 else m k)
unfolding clear_words
clear_words-at zero i m k = ground arith
clear_words-at (suc n) i m k =
    ground (arith, clear_words-at n (i + 1) (if i == 0 then m else clear_word_64 m i) k)

-- A new management page has level 0 for each page from the seventeenth on, while the levels of the
-- first sixteen pages are whatever the frame held before.
pub init_new_fsm-levels :
    (page_size : ℕ) (p : FsmPage) (lsn page_index pid no_pages i : ℕ)
    → i < (page_size - fsm_header_size) / 8 * 16
    → get_page_status (init_new_fsm page_size p lsn page_index pid no_pages) i
      ≡ (if ltb i 16 then get_page_status p i else 0)
unfolding init_new_fsm get_page_status
init_new_fsm-levels page_size p lsn page_index pid no_pages i h =
    ground (arith, clear_words-at ((page_size - fsm_header_size) / 8) 0 p.bytes (i / 2))
