-- ===== src/Buffer/Tests.antt =====
-- A few control blocks and frames.
use master_team_projekt.Prelude.{
  ℕ, refl, true, false, ◌==◌, if◌then◌else◌, Option, none, some, [], ◌∷◌, arith,
}
use master_team_projekt.Infra.Types.{PageId, page_id_eq, LockMode}
use master_team_projekt.Buffer.Block.{Block}
use master_team_projekt.Buffer.Block.Invariant.{Control}
use master_team_projekt.Buffer.Free.{FreeFrames, Blocks, reset_bcb}
use master_team_projekt.Buffer.Free.Table.{Resets, reset_bcb-Resets}

-- Of two readers one asks for the exclusive lock and waits, the other one leaves, and a third one comes: one
-- reader is left, and the fix count is 2.
abbrev one_reader : Block
one_reader = record { readers = 1; writer = false; mode = LockMode.shared; fix_count = 1 }

abbrev two_readers : Block
two_readers = record { readers = 2; writer = false; mode = LockMode.shared; fix_count = 2 }

abbrev late_reader : Block
late_reader = record { readers = 1; writer = false; mode = LockMode.shared; fix_count = 2 }

abbrev left_alone : Block
left_alone = record { readers = 0; writer = false; mode = LockMode.shared; fix_count = 1 }

abbrev one_waits : Block → Control
one_waits b = record { block = b; waiting = 1 }

abbrev none_waits : Block → Control
none_waits b = record { block = b; waiting = 0 }

abbrev three_frames : FreeFrames
three_frames = record { allocated = true; free_frame_list = λ i. i; no_free_frames = 3 }

abbrev page : ℕ → PageId
page n = record { file_id = 1; page_no = n }

-- Blocks 0 and 1 for the pages 5 and 9 are in bucket 0 of two, and blocks 2 and 3 are free.
abbrev links : ℕ → Option ℕ
links i = if i == 0 then some 1 else if i == 2 then some 3 else none

abbrev blocks : Blocks
blocks = record {
  next = links;
  page_id = λ i. if i == 0 then page 5 else page 9;
  frame_index = λ i. i;
  modified = λ i. true;
  free_bcb_list = some 2;
  no_free_bcbs = 2;
  bucket = λ h. if h == 0 then some 0 else none;
  table_size = 2;
  free_frames = three_frames;
}

reset_bcb-Resets_example :
    Resets blocks 0 (0 ∷ []) 1 [] (2 ∷ 3 ∷ []) (reset_bcb (λ n. n) 2 (page 9) blocks)
unfolding page_id_eq
reset_bcb-Resets_example =
    reset_bcb-Resets (λ n. n) 2 (page 9) (0 ∷ []) 1 [] (2 ∷ 3 ∷ []) blocks
      (record {
        chain = (refl, (refl, refl));
        free = (refl, (refl, refl));
        others = (refl, tt);
        mine = refl;
        distinct = ((tt, tt), (tt, tt));
        apart = (
          ((omega arith, (omega arith, tt)), tt),
          (omega arith, tt),
          tt,
          (omega arith, (omega arith, tt)),
        );
      })
      (omega arith)
