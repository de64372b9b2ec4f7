-- ===== src/SandboxOps/WaitLaws.antt =====
-- The waits end.
use rwx.Prelude.{
  ℕ, zero, suc, ◌+◌, ◌-◌, ◌<◌, ◌≤◌, ltb, true, ◌&&◌, not, ◌∷◌, Bytes, Bool-cases, Option-cases, inl,
  inr, ◌≡◌, arith,
}
use rwx.Prelude.Result.{Result-cases}
use rwx.Prelude.Traced.{◌>>=◌, ◌>>◌, return, log, on_result}
use rwx.SandboxOps.World.{
  ConnectionInfo, OpEvent, asked, slept, Past, Outside, get_connection_info, now,
}
use rwx.SandboxOps.Waiting.{completion_interval, completion_loop, wait_for_sandbox_completion}

-- The clock never goes back, and a sleep lasts at least as long as it is asked to.
pub record ClockAdvances (o : Outside) : Type 0 where
  pub monotone : (h : Past) (e : OpEvent) → o.clock h ≤ o.clock (e ∷ h)
  pub sleeps : (h : Past) (ms : ℕ) → o.clock h + ms ≤ o.clock (slept ms ∷ h)

interval-positive : (info : ConnectionInfo) → 0 < completion_interval info
unfolding completion_interval
interval-positive info = elim (Option-cases info.backoff_ms) [
  | inl e ↦ ground (arith, e)
  | inr (ms, e) ↦ ground (arith, e)
]

module _ (o : Outside) (run_id token : Bytes) (clock : ClockAdvances o) where
  completion_loop-ends :
      (fuel deadline : ℕ) (h : Past)
      → deadline - o.clock h < fuel
      → (completion_loop o run_id token fuel deadline h).0 ≡ true
  unfolding completion_loop ◌>>=◌ ◌>>◌ return log on_result now get_connection_info
  completion_loop-ends zero deadline h l = absurd (omega (arith, l))
  completion_loop-ends (suc fuel) deadline h l = elim (Bool-cases (ltb (o.clock h) deadline)) [
    | inr late ↦ simp late
    | inl early ↦
        let h1 : Past = asked run_id token ∷ h in
        elim (Result-cases (o.connection_info h run_id token)) [
          | inr (e, failed) ↦ simp (early, failed)
          | inl (info, found) ↦ elim (Bool-cases (info.completed && not info.sandboxable)) [
            | inl over ↦ simp (early, found, over)
            | inr more ↦
                let h2 : Past = slept (completion_interval info) ∷ h1 in
                simp (
                  early,
                  found,
                  more,
                  completion_loop-ends fuel deadline h2 (
                      ground (
                        arith,
                        l,
                        early,
                        interval-positive info,
                        clock.monotone h (asked run_id token),
                        clock.sleeps h1 (completion_interval info),
                      )),
                )
          ]
        ]
  ]

  -- The wait for a stopped run ends, whatever the server answers: the rounds allowed are never used up, for
  -- each sleeps a millisecond at least and the deadline is 30 seconds away.
  pub wait_for_sandbox_completion-ends :
      (h : Past) → (wait_for_sandbox_completion o run_id token h).0 ≡ true
  unfolding wait_for_sandbox_completion ◌>>=◌ now
  wait_for_sandbox_completion-ends h =
      completion_loop-ends 30001 (o.clock h + 30000) h (omega arith)
