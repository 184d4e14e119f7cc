-- ===== src/Infra/Headers.antt =====
-- src/infra/header_structs.hh: the headers at the end of each page, with their sizes in bytes.
use master_team_projekt.Prelude.{ℕ}

pub record BasicHeader : Type 0 where
  pub lsn : ℕ
  pub page_index : ℕ
  pub pid : ℕ
  pub version : ℕ

-- Of a free space indicator page of a partition.
pub record FsipHeader : Type 0 where
  pub free_blocks_count : ℕ
  pub next_free_page : ℕ
  pub managed_pages : ℕ
  pub version : ℕ
  pub basic_header : BasicHeader

-- Of a free space management page of a segment.
pub record FsmHeader : Type 0 where
  pub no_pages : ℕ
  pub next_fsm : ℕ
  pub basic_header : BasicHeader

-- Of a slotted page; its `basic_header` is written by the buffer manager.
pub record SpHeader : Type 0 where
  pub no_records : ℕ
  pub free_space : ℕ
  pub next_free_space : ℕ

-- Of an index page of a segment.
pub record SegmentFsmHeader : Type 0 where
  pub curr_size : ℕ
  pub first_fsm : ℕ
  pub next_index_page : ℕ
  pub seg_id : ℕ
  pub version : ℕ
  pub basic_header : BasicHeader

-- `sizeof` of the structs above.
abbrev pub basic_header_size : ℕ
basic_header_size = 16

abbrev pub fsip_header_size : ℕ
fsip_header_size = 32

abbrev pub fsm_header_size : ℕ
fsm_header_size = 24

abbrev pub sp_header_size : ℕ
sp_header_size = 24

abbrev pub segment_fsm_header_size : ℕ
segment_fsm_header_size = 32
