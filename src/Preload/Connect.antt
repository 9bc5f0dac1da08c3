-- ===== src/Preload/Connect.antt =====
-- crates/preload/src/lib.rs, `connect_to_daemon`: how long a process waits for the daemon.
use fake_notify.Base.{
  ℕ, zero, suc, ◌+◌, ◌*◌, ◌≤◌, ◌<◌, ◌≡◌, some, ltb, refl, arith, Bool-cases, Option-cases, Option,
  none, inl, inr,
}
use fake_notify.Preload.{delay_ms, connect_loop, connect_to_daemon}

-- No pause is longer than a second.
delay_ms_bounds : (attempt : ℕ) → delay_ms attempt ≤ 1000
unfolding delay_ms
delay_ms_bounds attempt = ground arith

connect_loop_ends :
    {A : Type 0} (fuel attempt slept : ℕ) (connects : ℕ → Option A)
    → fuel + attempt ≡ 61
    → 0 < fuel
    → (r : Option A × ℕ) × (connect_loop fuel connects attempt slept ≡ some r)
      × (r.1 ≤ slept + 1000 * fuel)
unfolding connect_loop
connect_loop_ends zero attempt slept connects h p = elim p [ ]
connect_loop_ends (suc fuel) attempt slept connects h p = elim (Option-cases (connects attempt)) [
  | inr (stream, up) ↦ ((some stream, slept), ground (arith, up), omega arith)
  | inl down ↦ elim (Bool-cases (ltb 60 (attempt + 1))) [
    | inl last ↦ (
      (none, slept + delay_ms (attempt + 1)),
      ground (arith, down, last),
      omega (arith, delay_ms_bounds (attempt + 1)),
    )
    | inr early ↦
        let (r, e, b) =
          connect_loop_ends fuel (attempt + 1) (slept + delay_ms (attempt + 1)) connects
            (omega arith) (ground (arith, early)) in
        (r, ground (arith, down, early, e), omega (arith, b, delay_ms_bounds (attempt + 1)))
  ]
]

-- Whichever attempts succeed, `connect_to_daemon` ends, and has slept for 61 seconds at most.
pub connect_to_daemon_ends :
    {A : Type 0} (connects : ℕ → Option A)
    → (r : Option A × ℕ) × (connect_to_daemon connects ≡ some r) × (r.1 ≤ 61000)
unfolding connect_to_daemon
connect_to_daemon_ends connects =
    let (r, e, b) = connect_loop_ends 61 0 0 connects refl (omega arith) in (r, e, omega (arith, b))
