-- ===== src/Buffer/Block.antt =====
-- src/buffer/buf_cntrl_block.{hh,cc}: the lock of a buffer control block. The mutex is its number of
-- readers and whether it has a writer; a method that waits for the mutex has no result in the states
-- in which it waits. `upgradeLock` gives up a shared lock before it waits, so it is two steps; any other
-- method is one step: the writes of two readers to the mode and the fix count are not interleaved.
pub mod Invariant
use master_team_projekt.Prelude.{
  ℕ, ◌+◌, ◌-◌, Bool, true, false, not, ◌&&◌, ltb, ◌==◌, if◌then◌else◌, Option, none, some,
}
use mathlib.Core.Option
use master_team_projekt.Prelude.Word.{add_64, sub_64}
use master_team_projekt.Infra.Types.{LockMode, lock_rank}

pub record Block : Type 0 where
  pub readers : ℕ
  pub writer : Bool
  pub mode : LockMode
  pub fix_count : ℕ

-- The constructor.
abbrev pub new_block : Block
new_block = record { readers = 0; writer = false; mode = LockMode.no_type; fix_count = 0 }

-- `std::shared_mutex::lock` and `lock_shared`.
abbrev pub mutex_lock : Block → Option Block
mutex_lock b = if not b.writer && b.readers == 0 then some (record b { writer = true }) else none

abbrev pub mutex_lock_shared : Block → Option Block
mutex_lock_shared b = if b.writer then none else some (record b { readers = b.readers + 1 })

abbrev pub mutex_unlock_shared : Block → Block
mutex_unlock_shared b = record b { readers = b.readers - 1 }

-- What the methods do once they have the mutex.
abbrev pub set_exclusive : Block → Block
set_exclusive b = record b { mode = LockMode.exclusive; fix_count = 1 }

abbrev pub add_reader : Block → Block
add_reader b = record b { mode = LockMode.shared; fix_count = add_64 b.fix_count 1 }

unfoldable pub lock_exclusive : Block → Option Block
lock_exclusive b = Option.map set_exclusive (mutex_lock b)

unfoldable pub lock_shared : Block → Option Block
lock_shared b = Option.map add_reader (mutex_lock_shared b)

-- `lock(LOCK_MODE)`. An unsupported mode is only traced.
unfoldable pub lock_mode : LockMode → Block → Option Block
lock_mode LockMode.no_type b = some b
lock_mode LockMode.no_lock b = some b
lock_mode LockMode.shared b = lock_shared b
lock_mode LockMode.exclusive b = lock_exclusive b

unfoldable pub unlock_by : LockMode → Block → Block
unlock_by LockMode.no_type b = b
unlock_by LockMode.no_lock b = b
unlock_by LockMode.shared b =
    let count = sub_64 b.fix_count 1 in
    mutex_unlock_shared
      (record b { fix_count = count; mode = if count == 0 then LockMode.no_lock else b.mode })
unlock_by LockMode.exclusive b = record b {
  fix_count = sub_64 b.fix_count 1;
  mode = LockMode.no_lock;
  writer = false;
}

unfoldable pub unlock : Block → Block
unfolding unlock_by
unlock b = unlock_by b.mode b

-- How a call of `upgradeLock` goes on: it has returned, or it waits for the mutex and goes on with the block that
-- it finds then. What it did before it waits is seen by the other threads.
pub data Upgrade : Type 0 where
  returned waits_shared waits_exclusive : Block → Upgrade

unfoldable pub upgrade_to : LockMode → Block → Upgrade
upgrade_to LockMode.no_type b = returned b
upgrade_to LockMode.no_lock b = returned (record b { mode = LockMode.no_lock })
upgrade_to LockMode.shared b = waits_shared b
upgrade_to LockMode.exclusive b =
    waits_exclusive
      (if lock_rank b.mode == lock_rank LockMode.shared then mutex_unlock_shared b else b)

-- `upgradeLock` up to the place where it returns or waits for the mutex.
unfoldable pub upgrade_lock : LockMode → Block → Upgrade
unfolding upgrade_to
upgrade_lock m b = if ltb (lock_rank b.mode) (lock_rank m) then upgrade_to m b else returned b

-- The rest of `upgradeLock` behind the wait for an exclusive lock and for a shared one.
unfoldable pub upgrade_exclusive : Block → Option Block
upgrade_exclusive b = Option.map set_exclusive (mutex_lock b)

unfoldable pub upgrade_shared : Block → Option Block
upgrade_shared b = Option.map add_reader (mutex_lock_shared b)
