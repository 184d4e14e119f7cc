-- ===== src/Buffer/Block/Invariant.antt =====
-- The lock of a control block: its mode and its fix count describe the mutex, whatever the threads do.
use master_team_projekt.Prelude.{
  ◌+◌, ◌<◌, ◌≡◌, refl, true, false, Option, none, some, Bool-cases, ◌⊎◌, ◌≤◌, ℕ, inl, inr, arith,
  subst,
}
use master_team_projekt.Prelude.Word.{mod_64}
use master_team_projekt.Infra.Types.{LockMode}
use master_team_projekt.Buffer.Block.{
  Block, unlock_by, Upgrade, returned, waits_shared, waits_exclusive, upgrade_exclusive,
  lock_shared, lock_mode, unlock, upgrade_lock,
}

-- The control block, and how many threads wait in `upgradeLock` for the exclusive lock.
pub record Control : Type 0 where
  pub block : Block
  pub waiting : ℕ

-- What the mode of a control block says about its mutex and its fix count. A thread that waits for its upgrade
-- may still be counted.
abbrev Agrees : LockMode → Block → ℕ → Type 0
Agrees LockMode.no_type b waiting = (b.readers ≡ 0) × (b.writer ≡ false) × (b.fix_count ≡ 0)
Agrees LockMode.no_lock b waiting = (b.readers ≡ 0) × (b.writer ≡ false) × (b.fix_count ≡ 0)
Agrees LockMode.shared b waiting =
    (b.readers ≤ b.fix_count)
    × (b.fix_count ≤ b.readers + waiting)
    × (b.writer ≡ false)
    × (0 < b.fix_count)
    × (b.readers + waiting < mod_64)
Agrees LockMode.exclusive b waiting = (b.readers ≡ 0) × (b.writer ≡ true) × (b.fix_count ≡ 1)

abbrev pub IsConsistent : Control → Type 0
IsConsistent k = Agrees k.block.mode k.block k.waiting

-- A thread holds the mutex.
abbrev pub IsHeld : Block → Type 0
IsHeld b = (0 < b.readers) ⊎ (b.writer ≡ true)

-- A call that returns, by any thread: a lock of one of the two modes, an unlock by a thread that holds the
-- lock, or an upgrade of a lock that is held exclusively; and the two steps of an upgrade of a shared lock.
pub data Step : Control → Control → Type 0 where
  locks :
      {b c : Block} {waiting : ℕ} (m : LockMode)
      → b.readers + waiting + 1 < mod_64
      → lock_mode m b ≡ some c
      → Step (record { block = b; waiting = waiting }) (record { block = c; waiting = waiting })
  unlocks :
      {b : Block} {waiting : ℕ}
      → IsHeld b
      → Step
          (record { block = b; waiting = waiting })
          (record { block = unlock b; waiting = waiting })
  upgraded :
      {b c : Block} {waiting : ℕ}
      → IsHeld b
      → upgrade_lock LockMode.exclusive b ≡ returned c
      → Step (record { block = b; waiting = waiting }) (record { block = c; waiting = waiting })
  upgrades :
      {b c : Block} {waiting : ℕ}
      → IsHeld b
      → upgrade_lock LockMode.exclusive b ≡ waits_exclusive c
      → Step (record { block = b; waiting = waiting }) (record { block = c; waiting = waiting + 1 })
  goes_on :
      {b c : Block} {waiting : ℕ}
      → upgrade_exclusive b ≡ some c
      → Step (record { block = b; waiting = waiting + 1 }) (record { block = c; waiting = waiting })

pub data Steps : Control → Control → Type 0 where
  start : {b : Control} → Steps b b
  further : {a b c : Control} → Steps a b → Step b c → Steps a c

-- A property of the block that a method leaves, if the method returns.
abbrev IfReturns : (Block → Type 0) → Option Block → Type 0
IfReturns P none = Unit
IfReturns P (some c) = P c

if_returned : {c : Block} (P : Block → Type 0) (r : Option Block) → r ≡ some c → IfReturns P r → P c
if_returned P r e h = subst (IfReturns P) e h

module _ (waiting : ℕ) where
  abbrev with_waiting : Block → Control
  with_waiting b = record { block = b; waiting = waiting }

  fix_count-free :
      (m : LockMode) (b : Block)
      → Agrees m b waiting
      → b.writer ≡ false
      → (b.readers ≤ b.fix_count) × (b.fix_count ≤ b.readers + waiting)
  fix_count-free LockMode.no_type b h e = (omega (arith, h), omega (arith, h))
  fix_count-free LockMode.no_lock b h e = (omega (arith, h), omega (arith, h))
  fix_count-free LockMode.shared b h e = (h.0, h.1)
  fix_count-free LockMode.exclusive b h e = ground (arith, h, e)

  -- What an upgrade to the exclusive lock leaves when it returns or waits.
  abbrev Goes : Upgrade → Type 0
  Goes (returned c) = IsConsistent (with_waiting c)
  Goes (waits_shared c) = Unit
  Goes (waits_exclusive c) = IsConsistent (record { block = c; waiting = waiting + 1 })

-- Unlocking gives back the state of the mutex before a shared lock, if nobody waits for an upgrade, the block was
-- consistent and has room for one more reader.
pub unlock-lock_shared :
    (b c : Block)
    → IsConsistent (with_waiting 0 b)
    → b.readers + 1 < mod_64
    → lock_shared b ≡ some c
    → ((unlock c).readers ≡ b.readers)
      × ((unlock c).writer ≡ false)
      × ((unlock c).fix_count ≡ b.fix_count)
unfolding lock_shared unlock unlock_by
unlock-lock_shared b c h small e =
    if_returned Restored (lock_shared b) e (elim (Bool-cases b.writer) [
      | inl taken ↦ simp taken tt
      | inr free ↦
          simp free (omega arith, refl, omega (arith, small, fix_count-free 0 b.mode b h free))
    ])
  where
    Restored : Block → Type 0
    Restored d =
        ((unlock d).readers ≡ b.readers)
        × ((unlock d).writer ≡ false)
        × ((unlock d).fix_count ≡ b.fix_count)
