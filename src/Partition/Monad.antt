-- ===== src/Partition/Monad.antt =====
-- The state of a `PartitionBase`, and its methods as computations that change it or throw.
use master_team_projekt.Prelude.{ℕ, Bool}
use master_team_projekt.Interpreter.Fsip.{FsipPage}

-- `file_open` tells whether `_fileDescriptor` is not -1. A page is read as an indicator page.
pub record Partition : Type 0 where
  pub page_size : ℕ
  pub size_in_pages : ℕ
  pub partition_id : ℕ
  pub open_count : ℕ
  pub file_open : Bool
  pub trace : Bool
  pub disk : ℕ → FsipPage

-- A normal return, a `FileException`, a `PartitionFullException` with its buffer and the index of its
-- indicator page, or a loop of the model that ran out of fuel. Each leaves a state.
pub data Result {ℓ} (A : Type ℓ) : Type ℓ where
  done : A → Partition → Result A
  file_exception : Partition → Result A
  partition_full : FsipPage → ℕ → Partition → Result A
  out_of_fuel : Result A

abbrev pub M {ℓ} : Type ℓ → Type ℓ
M A = Partition → Result A

abbrev pub bind {ℓ κ} : {A : Type ℓ} {B : Type κ} → Result A → (A → M B) → Result B
bind (done a st) f = f a st
bind (file_exception st) f = file_exception st
bind (partition_full page i st) f = partition_full page i st
bind out_of_fuel f = out_of_fuel

infixl 5 ◌>>=◌ ◌>>◌
abbrev pub ◌>>=◌ {ℓ κ} : {A : Type ℓ} {B : Type κ} → M A → (A → M B) → M B
◌>>=◌ m f st = bind (m st) f

abbrev pub ◌>>◌ {ℓ κ} : {A : Type ℓ} {B : Type κ} → M A → M B → M B
◌>>◌ m k st = bind (m st) (λ _. k)

abbrev pub return {ℓ} : {A : Type ℓ} → A → M A
return a st = done a st

abbrev pub get_state : M Partition
get_state st = done st st

abbrev pub put_state : Partition → M (Unit {0})
put_state st' st = done tt st'
