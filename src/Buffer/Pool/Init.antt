-- ===== src/Buffer/Pool/Init.antt =====
-- `BufferManager::init`.
use master_team_projekt.Prelude.{
  ℕ, suc, ◌-◌, ◌*◌, ◌/◌, ◌≤◌, ◌<◌, ◌≡◌, refl, sym, ap, ◌∙◌, subst, false, none, some, [], count,
  arith,
}
use master_team_projekt.Infra.Types.{invalid}
use master_team_projekt.Buffer.Free.{Blocks, init_bcbs, init_frames}
use master_team_projekt.Buffer.Free.Chain.{IsChain}
use master_team_projekt.Buffer.Free.Frames.{frames, below, count-below, init_frames_lem}
use master_team_projekt.Buffer.Free.Lists.{
  upwards, count-upwards, init_bcbs-IsFreeList, init_bcbs-same,
}
use master_team_projekt.Buffer.Pool.{Device, Pool, init}
use master_team_projekt.Buffer.Pool.Coherent.{IsBuffer}

free_chain :
    (m : ℕ) (s : Blocks)
    → 2 ≤ m
    → IsChain (init_bcbs m s).next (init_bcbs m s).free_bcb_list (upwards m 0)
free_chain m s two =
    subst (λ k. IsChain (init_bcbs k s).next (init_bcbs k s).free_bcb_list (upwards k 0))
      (whole m two) (init_bcbs-IsFreeList (m - 2) s).chain
  where
    whole : (m : ℕ) → 2 ≤ m → suc (suc (m - 2)) ≡ m
    whole m two = omega (arith, two)

-- A new buffer of at least two frames is in order, and its pages are those of the disk.
pub init-IsBuffer :
    {D : Type 0} (device : Device D) (std_hash : ℕ → ℕ) (n : ℕ) (s : Pool D)
    → 2 ≤ n
    → n < invalid
    → s.blocks.free_frames.allocated ≡ false
    → IsBuffer device std_hash (λ q. device.read_page q s.disk) (init n s)
unfolding init
init-IsBuffer {D} device std_hash n s two small fresh = record {
  chain = λ h. [];
  free = upwards m 0;
  coherent = record {
    linked = record {
      chains = λ h. ap (λ b. b.bucket h) same;
      free_list = free_chain m start (omega (arith, two));
      hashed = λ h i on. absurd (omega (arith, on));
      once = λ h i. omega (arith, (count-upwards m 0 i).0);
      single = λ h i j on. absurd (omega (arith, on));
    };
    framed = record {
      owned = λ h i on. absurd (omega (arith, on));
      sole = λ h k i j on. absurd (omega (arith, on));
      free_once = λ f. subst (λ l. count f l ≤ 1) (sym free_ones) (count-below n f).0;
      free_small = λ f on. (count-below n f).1 (subst (λ l. 0 < count f l) free_ones on);
      number = small;
    };
    shows = record {
      brought = λ h i on. absurd (omega (arith, on));
      cached = λ h i on. absurd (omega (arith, on));
      known = λ h i on. absurd (omega (arith, on));
      stored = λ q has clean. refl;
    };
    unlocked = λ i on. (refl, refl);
  };
}
  where
    m : ℕ
    m = n * 6 / 5

    start : Blocks
    start = record (s.blocks) {
      table_size = n;
      bucket = λ h. none;
      free_frames = init_frames n s.blocks.free_frames;
    }

    same :
        init_bcbs m start
        ≡ record start { next = (init_bcbs m start).next; free_bcb_list = some 0; no_free_bcbs = m }
    same = init_bcbs-same m start

    free_ones : frames (init_bcbs m start).free_frames ≡ below (λ i. i) n
    free_ones =
        ap (λ b. frames b.free_frames) same ∙ (init_frames_lem n n s.blocks.free_frames fresh).0
