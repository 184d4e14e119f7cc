-- ===== src/Infra/Types.antt =====
-- src/infra/types.hh: page ids, tuple ids, the control block, invalid values and lock modes.
use master_team_projekt.Prelude.{ℕ, ◌^◌, ◌-◌, ◌≡◌, Bool, ◌&&◌, ◌==◌, true, ◌↔◌, arith}

-- `std::numeric_limits<...>::max()` of `size_t`, `uint32_t` and `uint16_t`.
abbrev pub invalid : ℕ
invalid = 2 ^ 64 - 1

abbrev pub invalid_32 : ℕ
invalid_32 = 2 ^ 32 - 1

abbrev pub invalid_16 : ℕ
invalid_16 = 2 ^ 16 - 1

pub record ControlBlock : Type 0 where
  pub page_size : ℕ
  pub no_buf_frames : ℕ
  pub trace : Bool

pub record PageId : Type 0 where
  pub file_id : ℕ
  pub page_no : ℕ

-- `operator==` of page ids.
unfoldable pub page_id_eq : PageId → PageId → Bool
page_id_eq p q = p.file_id == q.file_id && p.page_no == q.page_no

pub page_id_eq_iff : (p q : PageId) → (page_id_eq p q ≡ true) ↔ (p ≡ q)
unfolding page_id_eq
page_id_eq_iff p q = ground arith

pub record TupleId : Type 0 where
  pub page_no : ℕ
  pub tuple_no : ℕ

-- The enumerator `kLockModeSize` only counts the others and is no mode of a control block.
pub data LockMode : Type 0 where
  no_type no_lock shared exclusive : LockMode

-- `toType`, shifted by one: `kNoType` is -1 in the source. Only its order is used.
unfoldable pub lock_rank : LockMode → ℕ
lock_rank LockMode.no_type = 0
lock_rank LockMode.no_lock = 1
lock_rank LockMode.shared = 2
lock_rank LockMode.exclusive = 3

-- `enum class PageStatus`: `kNoType`, or one of the fill levels 0 to 15. `kPageStatusSize` is 16.
pub data PageStatus : Type 0 where
  no_type : PageStatus
  bucket : ℕ → PageStatus
