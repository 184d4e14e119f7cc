-- ===== src/Threading/Queue/Fifo.antt =====
-- The queue hands out what was pushed, in that order.
use master_team_projekt.Prelude.{
  ◌≡◌, refl, ◌∙◌, ap, sym, Option, none, some, List, [], ◌∷◌, ◌++◌, Bool-cases, inl, inr,
}
use mathlib.Core.List.{append_assoc, append-nil}
use master_team_projekt.Threading.Queue.{
  ThreadQueue, pop_items, wait_items, try_pop, wait_pop, push, invalidate,
}

-- A call of any thread but `clear`.
pub data Call {ℓ} (A : Type ℓ) : Type ℓ where
  pushes : A → Call A
  tries waits invalidates : Call A

module _ {ℓ} {A : Type ℓ} where
  -- The value that a call hands out, and the queue after it. A call that waits changes nothing.
  abbrev pub answer : Option (Option A × ThreadQueue A) → ThreadQueue A → Option A × ThreadQueue A
  answer none q = (none, q)
  answer (some r) q = r

  unfoldable pub perform : Call A → ThreadQueue A → Option A × ThreadQueue A
  perform (pushes x) q = (none, push x q)
  perform tries q = try_pop q
  perform waits q = answer (wait_pop q) q
  perform invalidates q = (none, invalidate q)

  abbrev pub values : Option A → List A
  values none = []
  values (some x) = x ∷ []

  -- The values that the calls of a history hand out, and the queue after it.
  unfoldable pub run : List (Call A) → ThreadQueue A → List A × ThreadQueue A
  unfolding perform
  run [] q = ([], q)
  run (c ∷ cs) q = let r = perform c q in let s = run cs r.1 in (values r.0 ++ s.0, s.1)

  abbrev pub pushed_by : Call A → List A
  pushed_by (pushes x) = x ∷ []
  pushed_by tries = []
  pushed_by waits = []
  pushed_by invalidates = []

  unfoldable pub pushed : List (Call A) → List A
  pushed [] = []
  pushed (c ∷ cs) = pushed_by c ++ pushed cs

  pop_items-order :
      (xs : List A) (q : ThreadQueue A)
      → q.items ≡ xs
      → values (pop_items xs q).0 ++ (pop_items xs q).1.items ≡ xs
  unfolding pop_items
  pop_items-order [] q e = e
  pop_items-order (x ∷ xs) q e = refl

  wait_items-order :
      (xs : List A) (q : ThreadQueue A)
      → q.items ≡ xs
      → values (answer (wait_items xs q) q).0 ++ (answer (wait_items xs q) q).1.items ≡ xs
  unfolding wait_items
  wait_items-order [] q e = e
  wait_items-order (x ∷ xs) q e = refl

  perform-order :
      (c : Call A) (q : ThreadQueue A)
      → values (perform c q).0 ++ (perform c q).1.items ≡ q.items ++ pushed_by c
  unfolding perform push try_pop wait_pop invalidate
  perform-order (pushes x) q = refl
  perform-order tries q = elim (Bool-cases q.valid) [
    | inl e ↦ simp e (pop_items-order q.items q refl ∙ sym (append-nil q.items))
    | inr e ↦ simp e (sym (append-nil q.items))
  ]
  perform-order waits q = elim (Bool-cases q.valid) [
    | inl e ↦ simp e (wait_items-order q.items q refl ∙ sym (append-nil q.items))
    | inr e ↦ simp e (sym (append-nil q.items))
  ]
  perform-order invalidates q = sym (append-nil q.items)

  -- In every history of calls other than `clear`, the values that were handed out, followed by those that
  -- are left in the queue, are those that it held at the start, followed by those that were pushed, in their
  -- order: none is lost, invented, doubled or overtaken.
  pub run-pushed :
      (cs : List (Call A)) (q : ThreadQueue A)
      → (run cs q).0 ++ (run cs q).1.items ≡ q.items ++ pushed cs
  unfolding run pushed
  run-pushed [] q = sym (append-nil q.items)
  run-pushed (c ∷ cs) q =
      let r = perform c q in
      append_assoc (values r.0) (run cs r.1).0 (run cs r.1).1.items
      ∙ ap (λ xs. values r.0 ++ xs) (run-pushed cs r.1)
      ∙ sym (append_assoc (values r.0) (r.1).items (pushed cs))
      ∙ ap (λ xs. xs ++ pushed cs) (perform-order c q)
      ∙ append_assoc q.items (pushed_by c) (pushed cs)
