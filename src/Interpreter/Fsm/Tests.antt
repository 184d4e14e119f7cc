-- ===== src/Interpreter/Fsm/Tests.antt =====
-- A management page of 56 bytes, which holds the levels of 64 pages, over an old frame.
use master_team_projekt.Prelude.{◌≤◌, ◌≡◌, refl, [], ◌∷◌, arith}
use master_team_projekt.Interpreter.Fsm.{
  FsmPage, get_page_status, get_free_page, find_fit, add_data_page,
}
use master_team_projekt.Interpreter.Fsm.Search.{Outcome, get_free_page-Outcome}
use master_team_projekt.Interpreter.Fsm.History.{requests, requests-load-le}

abbrev used_frame : FsmPage
used_frame = record {
  bytes = λ k. 0xEF;
  header = record {
    no_pages = 3;
    next_fsm = 0;
    basic_header = record { lsn = 0; page_index = 4; pid = 1; version = 1 };
  };
}

get_free_page-Outcome_example : Outcome 56 used_frame 1 (get_free_page 56 used_frame 1)
get_free_page-Outcome_example =
    get_free_page-Outcome 56 used_frame 1 (λ k. omega arith) (omega arith) (omega arith)

requests-load-le_example :
    (requests 56 4066 (record { page = used_frame; load = λ k. 0 }) (900 ∷ 4065 ∷ 3000 ∷ [])).load 2
    ≤ 4066
requests-load-le_example =
    requests-load-le 56 4066 used_frame (900 ∷ 4065 ∷ 3000 ∷ []) 2 (λ k. omega arith) (omega arith)
      (omega arith)

-- The lower half of 0xEF leaves no room, the upper has level 14.
second_is_taken : (get_free_page 56 used_frame 1).0 ≡ 1
unfolding get_free_page find_fit get_page_status
second_is_taken = refl

too_full : (get_free_page 56 used_frame 2).0 ≡ 3
unfolding get_free_page find_fit get_page_status add_data_page
too_full = refl
