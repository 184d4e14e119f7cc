-- ===== src/Interpreter/Fsm/Status.antt =====
-- `calcPageStatus` of interpreter_fsm.cc: the level that a number of bytes needs.
use master_team_projekt.Prelude.{
  ℕ, ◌+◌, ◌-◌, ◌*◌, ◌/◌, ◌≤◌, ◌<◌, ◌≡◌, ◌↔◌, leb, Bool-cases, inl, inr, arith,
}
use master_team_projekt.Infra.Types.{PageStatus, bucket}
use master_team_projekt.Interpreter.Fsm.{calc_page_status}

ceil_bounds : (n b : ℕ) → 0 < b → let q = (n + b - 1) / b in (n ≤ q * b) × (q * b < n + b)
ceil_bounds n b h = grind arith

ceil_unique : (n b s : ℕ) → 0 < b → n ≤ s * b → s * b < n + b → (n + b - 1) / b ≡ s
ceil_unique n b s h lo hi =
    let c = ceil_bounds n b h in
    antisym (below s ((n + b - 1) / b) (omega (arith, c.0)))
      (below ((n + b - 1) / b) s (omega (arith, c.1)))
  where
    below : (s q : ℕ) → s * b < q * b + b → s ≤ q
    below s q e = grind arith

    antisym : {s q : ℕ} → s ≤ q → q ≤ s → q ≡ s
    antisym h k = omega arith

-- For a page of at least fifteen bytes, a request gets the least level whose buckets hold it, if
-- that is at most fifteen.
pub calc_page_status_lem :
    (size n s : ℕ)
    → 15 ≤ size
    → (calc_page_status size n ≡ bucket s)
      ↔ ((s ≤ 15) × (n ≤ size) × (n ≤ s * (size / 15)) × (s * (size / 15) < n + size / 15))
unfolding calc_page_status
calc_page_status_lem size n s h = (
  λ e. ground (arith, c.0, c.1),
  λ f. ground (arith, ceil_unique n (size / 15) s (omega arith) f.2 f.3),
)
  where
    c :
        (n ≤ (n + size / 15 - 1) / (size / 15) * (size / 15))
        × ((n + size / 15 - 1) / (size / 15) * (size / 15) < n + size / 15)
    c = ceil_bounds n (size / 15) (omega arith)

-- On a page of at least fifteen bytes, a request is refused as too large exactly if it exceeds the
-- fifteen buckets together.
pub calc_page_status-no_type :
    (size n : ℕ)
    → 15 ≤ size
    → (calc_page_status size n ≡ PageStatus.no_type) ↔ (15 * (size / 15) < n)
unfolding calc_page_status
calc_page_status-no_type size n h = (
  λ e. ground (arith, c.1, many ((n + size / 15 - 1) / (size / 15))),
  λ f. ground (arith, over f),
)
  where
    c :
        (n ≤ (n + size / 15 - 1) / (size / 15) * (size / 15))
        × ((n + size / 15 - 1) / (size / 15) * (size / 15) < n + size / 15)
    c = ceil_bounds n (size / 15) (omega arith)

    few : (q : ℕ) → q ≤ 15 → q * (size / 15) ≤ 15 * (size / 15)
    few q e = grind arith

    many : (q : ℕ) → 16 ≤ q → 16 * (size / 15) ≤ q * (size / 15)
    many q e = grind arith

    over : 15 * (size / 15) < n → 15 < (n + size / 15 - 1) / (size / 15)
    over f = elim (Bool-cases (leb ((n + size / 15 - 1) / (size / 15)) 15)) [
      | inl e ↦ absurd (ground (arith, c.0, few ((n + size / 15 - 1) / (size / 15))))
      | inr e ↦ ground arith
    ]
