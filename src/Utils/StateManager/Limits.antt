-- ===== src/Utils/StateManager/Limits.antt =====
-- The limits on repeated entries of a state, in src/utils/state_manager.h.
use nimlib.Prelude.{
  ℕ, ◌+◌, ◌≤◌, ◌<◌, ◌≡◌, refl, sym, ◌∙◌, ◌≢◌, ◌⊎◌, inr, false, Option, none, some, List, [], ◌∷◌,
  arith, length, ap, dec_lt,
}
use nimlib.Prelude.Map.{find}
use nimlib.Utils.StateManager.{
  StateManager, Readings, over, timed_out, count_reset, reset_state, change, set_state, clear,
  get_state,
}
use nimlib.Utils.StateManager.Laws.{Call, sets, resets, gets, step, run, reset_state-Follows}

module _ {T : Type 0} (eq : Discrete T) where
  -- Outside the error state the resets counted so far do not pass the limit of the state.
  abbrev pub IsWithin : StateManager T → Type 0
  IsWithin m =
      (m.state ≡ m.error_state) ⊎ (over m.reset_count (find eq m.state m.max_reset_counts) ≡ false)

  over_zero : (o : Option ℕ) → over 0 o ≡ false
  over_zero none = refl
  over_zero (some n) = ground arith

  count_reset-IsWithin : (m : StateManager T) → IsWithin (count_reset eq m)
  unfolding count_reset
  count_reset-IsWithin m = ground arith

  reset_state-IsWithin :
      (m : StateManager T) (check stamp : ℕ) → IsWithin m → IsWithin (reset_state eq m check stamp)
  unfolding reset_state
  reset_state-IsWithin m check stamp h = ground (arith, count_reset-IsWithin m)

  change-IsWithin :
      (m : StateManager T) (t : T) (r : Readings) → IsWithin m → IsWithin (change eq m t r)
  unfolding change
  change-IsWithin m t r h = ground (
    arith,
    reset_state-IsWithin m r.check r.check,
    over_zero (find eq t m.max_reset_counts),
    over_zero (find eq m.error_state m.max_reset_counts),
  )

  set_state-IsWithin :
      (m : StateManager T) (t : T) (r : Readings) → IsWithin m → IsWithin (set_state eq m t r)
  unfolding set_state
  set_state-IsWithin m t r h = ground (arith, change-IsWithin m t r)

  step-IsWithin : (m : StateManager T) (c : Call T) → IsWithin m → IsWithin (step eq m c)
  unfolding step get_state
  step-IsWithin m (sets t r) h = set_state-IsWithin m t r h
  step-IsWithin m (resets check stamp) h = reset_state-IsWithin m check stamp h
  step-IsWithin m (gets now r) h = ground (arith, set_state-IsWithin m m.error_state r)

  run-IsWithin : (m : StateManager T) (cs : List (Call T)) → IsWithin m → IsWithin (run eq m cs)
  unfolding run
  run-IsWithin m [] h = h
  run-IsWithin m (c ∷ cs) h = run-IsWithin (step eq m c) cs (step-IsWithin m c h)

  -- After `clear` and any sequence of calls, the count of resets is within the limit of the state,
  -- or the state is the error state.
  pub run-clear-IsWithin :
      (m : StateManager T) (stamp : ℕ) (cs : List (Call T))
      → IsWithin (run eq (clear eq m stamp) cs)
  unfolding clear
  run-clear-IsWithin m stamp cs =
      run-IsWithin _ cs (inr (over_zero (find eq m.initial_state m.max_reset_counts)))

  -- `reset_state` again and again, at the times listed.
  pub reset_times : StateManager T → List (ℕ × ℕ) → StateManager T
  reset_times m [] = m
  reset_times m ((check, stamp) ∷ ts) = reset_times (reset_state eq m check stamp) ts

  -- No reading of the clock finds the state timed out.
  abbrev pub IsPrompt : StateManager T → List (ℕ × ℕ) → Type 0
  IsPrompt m [] = Unit
  IsPrompt m ((check, stamp) ∷ ts) =
      (timed_out eq m check ≡ false) × IsPrompt (reset_state eq m check stamp) ts

  reset_state_counts :
      (m : StateManager T) (check stamp limit : ℕ)
      → m.state ≢ m.error_state
      → find eq m.state m.max_reset_counts ≡ some limit
      → timed_out eq m check ≡ false
      → m.reset_count < limit
      → let n = reset_state eq m check stamp in
        (n.state ≡ m.state)
        × (n.error_state ≡ m.error_state)
        × (n.reset_count ≡ m.reset_count + 1)
        × (n.max_reset_counts ≡ m.max_reset_counts)
  unfolding reset_state count_reset
  reset_state_counts m check stamp limit h e p lt =
      (ground arith, ground arith, ground arith, ground arith)

  reset_state_fails :
      (m : StateManager T) (check stamp limit : ℕ)
      → find eq m.state m.max_reset_counts ≡ some limit
      → limit ≤ m.reset_count
      → let n = reset_state eq m check stamp in
        (n.state ≡ m.error_state) × (n.error_state ≡ m.error_state)
  unfolding reset_state count_reset
  reset_state_fails m check stamp limit e le = (ground arith, ground arith)

  reset_times-error :
      (m : StateManager T) (ts : List (ℕ × ℕ))
      → m.state ≡ m.error_state
      → (reset_times m ts).state ≡ m.error_state
  unfolding reset_times
  reset_times-error m [] h = h
  reset_times-error m ((check, stamp) ∷ ts) h =
      let f = reset_state-Follows eq m check stamp in
      reset_times-error (reset_state eq m check stamp) ts (f.final h ∙ sym f.tables.error)
      ∙ f.tables.error

  reset_times_exact :
      (m : StateManager T) (ts : List (ℕ × ℕ)) (limit : ℕ)
      → m.state ≢ m.error_state
      → find eq m.state m.max_reset_counts ≡ some limit
      → m.reset_count ≤ limit
      → IsPrompt m ts
      → (m.reset_count + length ts ≤ limit → (reset_times m ts).state ≡ m.state)
        × (limit < m.reset_count + length ts → (reset_times m ts).state ≡ m.error_state)
  unfolding reset_times
  reset_times_exact m [] limit h e c p = (λ _. refl, λ lt. absurd (omega arith))
  reset_times_exact m ((check, stamp) ∷ ts) limit h e c (p, ps) =
      elim (dec_lt m.reset_count limit) [
        | yes lt ↦
            let (s, er, n, t) = reset_state_counts m check stamp limit h e p lt in
            let ih =
              reset_times_exact (reset_state eq m check stamp) ts limit (λ q. h (sym s ∙ q ∙ er))
                (ap (λ k. find eq k (reset_state eq m check stamp).max_reset_counts) s
                  ∙ ap (find eq m.state) t
                  ∙ e)
                (omega arith) ps in
            (λ le. ih.0 (omega arith) ∙ s, λ le. ih.1 (omega arith) ∙ er)
        | no ge ↦
            let (s, er) = reset_state_fails m check stamp limit e (omega arith) in
            (
              λ le. absurd (omega arith),
              λ le. reset_times-error (reset_state eq m check stamp) ts (s ∙ sym er) ∙ er,
            )
      ]

  -- With a limit for the present state that is not the error state, no time-out and a count of resets
  -- within the limit, repeated calls of `reset_state` keep the state as long as they stay within it.
  pub reset_times-within :
      (m : StateManager T) (ts : List (ℕ × ℕ)) (limit : ℕ)
      → m.state ≢ m.error_state
      → find eq m.state m.max_reset_counts ≡ some limit
      → IsPrompt m ts
      → m.reset_count + length ts ≤ limit
      → (reset_times m ts).state ≡ m.state
  reset_times-within m ts limit h e p le = (reset_times_exact m ts limit h e (omega arith) p).0 le

  -- With a limit for the present state that is not the error state, no time-out and a count of resets
  -- within the limit, repeated calls of `reset_state` that pass the limit end in the error state.
  pub reset_times-beyond :
      (m : StateManager T) (ts : List (ℕ × ℕ)) (limit : ℕ)
      → m.state ≢ m.error_state
      → find eq m.state m.max_reset_counts ≡ some limit
      → IsPrompt m ts
      → m.reset_count ≤ limit
      → limit < m.reset_count + length ts
      → (reset_times m ts).state ≡ m.error_state
  reset_times-beyond m ts limit h e p c lt = (reset_times_exact m ts limit h e c p).1 lt
