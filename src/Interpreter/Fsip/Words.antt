-- ===== src/Interpreter/Fsip/Words.antt =====
-- What the word and byte operations of interpreter_fsip.cc do to each single bit.
use master_team_projekt.Prelude.{
  ℕ, zero, suc, ◌+◌, ◌*◌, ◌%◌, ◌≡◌, true, false, ◌&&◌, ltb, leb, ◌==◌, if◌then◌else◌, arith,
}
use master_team_projekt.Prelude.Bits.{Bits, write_word, zeros}
use master_team_projekt.Interpreter.Fsip.{
  fill_words, clear_bytes, set_bit_8, set_bit_32, clear_bit_32,
}

pub set_bit_8-at : (m : Bits) (i k : ℕ) → set_bit_8 m i k ≡ (if k == i then true else m k)
unfolding set_bit_8
set_bit_8-at m i k = ground arith

pub set_bit_32-at : (m : Bits) (i k : ℕ) → set_bit_32 m i k ≡ (if k == i then true else m k)
unfolding set_bit_32
set_bit_32-at m i k = ground arith

pub clear_bit_32-at : (m : Bits) (i k : ℕ) → clear_bit_32 m i k ≡ (if k == i then false else m k)
unfolding clear_bit_32
clear_bit_32-at m i k = ground arith

pub fill_words-at :
    (n i : ℕ) (v m : Bits) (k : ℕ)
    → fill_words n i v m k ≡ (if leb (i * 32) k && ltb k ((i + n) * 32) then v (k % 32) else m k)
unfolding fill_words
fill_words-at zero i v m k = ground arith
fill_words-at (suc n) i v m k = ground (arith, fill_words-at n (i + 1) v (write_word 32 m i v) k)

pub clear_bytes-at :
    (n j : ℕ) (m : Bits) (k : ℕ)
    → clear_bytes n j m k ≡ (if leb (j * 8) k && ltb k ((j + n) * 8) then false else m k)
unfolding clear_bytes
clear_bytes-at zero j m k = ground arith
clear_bytes-at (suc n) j m k = ground (arith, clear_bytes-at n (j + 1) (write_word 8 m j zeros) k)
