-- ===== src/Daemon/System/Resuming.antt =====
-- crates/daemon/src/server.rs: a step of the task of `handle_client`, in all its phases.
use fake_notify.Base.{
  ℕ, ◌≡◌, refl, ◌∙◌, inl, inr, true, not, ◌||◌, Option, none, some, if◌then◌else◌, nat_eq,
  Bool-cases, subst,
}
use fake_notify.Protocol.Message.{Response, client_registered}
use fake_notify.Daemon.State.{DaemonState, ClientId}
use fake_notify.Daemon.State.Invariant.{IsValid}
use fake_notify.Daemon.State.Invariant.Joining.{HasRoom}
use fake_notify.Daemon.Server.{Platform, send_response}
use fake_notify.Daemon.System.{
  Task, Phase, greeting, reading, replying, leaving, Received, waits, message, breaks, receive,
  resume,
}
use fake_notify.Daemon.System.Soundness.{
  connects, IsStep, GoesOn, sent-IsStep, unregistered-IsStep, take_request-IsStep,
  connects-send_response,
}

module _ (os : Platform) where
  -- What a step comes to is sound: the rest of the daemon is left alone.
  abbrev IsSoundly : ClientId → DaemonState → Option (DaemonState × Option Task) → Type 0
  IsSoundly id s none = Unit
  IsSoundly id s (some (t, after)) = IsStep id s t × GoesOn id t after

  replied-IsSoundly :
      (s : DaemonState) (task : Task) (r : Response) (phase : Phase)
      → IsValid s
      → HasRoom s
      → connects s task.id ≡ true
      → IsStep task.id s (send_response os s task.id r).0
        × GoesOn task.id (send_response os s task.id r).0 (some (record task { phase = phase }))
  replied-IsSoundly s task r phase v room there = (
    sent-IsStep os s task.id r v room there,
    (refl, connects-send_response os s task.id r task.id ∙ there),
  )

  resume-IsSoundly :
      (now : ℕ) (s : DaemonState) (task : Task)
      → IsValid s
      → HasRoom s
      → connects s task.id ≡ true
      → IsSoundly task.id s (resume os now s task)
  unfolding resume
  resume-IsSoundly now s task v room there = by_phase task.phase refl
    where
      idle : IsStep task.id s s
      idle = record { valid = v; others = λ d p ne. refl; stay = λ d ne. refl }

      by_message :
          task.phase ≡ reading
          → (x : Received) → receive task.unread task.ended ≡ x
          → IsSoundly task.id s (resume os now s task)
      by_message e waits h = rw (e, h, resume) tt
      by_message e breaks h = rw (e, h, resume) (idle, (refl, there))
      by_message e (message payload rest) h =
          let (step, stays) = take_request-IsStep os now s task.id payload v room there in
          rw (e, h, resume) (step, (refl, stays))

      by_phase : (x : Phase) → task.phase ≡ x → IsSoundly task.id s (resume os now s task)
      by_phase greeting e =
          let (step, on) =
            replied-IsSoundly s task (client_registered task.id) reading v room there in
          elim (Bool-cases (send_response os s task.id (client_registered task.id)).1) [
            | inl sent ↦ rw (e, sent, resume) (step, on)
            | inr lost ↦ rw (e, lost, resume) (step, tt)
          ]
      by_phase reading e = by_message e (receive task.unread task.ended) refl
      by_phase (replying response ends) e =
          rw (e, resume)
            (replied-IsSoundly s task response
              (if (send_response os s task.id response).1 || not ends then reading else leaving) v
              room there)
      by_phase leaving e = rw (e, resume) (unregistered-IsStep os s task.id v, tt)

  -- A step of a task whose client is in the table.
  pub resume-IsStep :
      (now : ℕ) (s t : DaemonState) (task : Task) (after : Option Task)
      → IsValid s
      → HasRoom s
      → connects s task.id ≡ true
      → resume os now s task ≡ some (t, after)
      → IsStep task.id s t × GoesOn task.id t after
  resume-IsStep now s t task after v room there h =
      subst (IsSoundly task.id s) h (resume-IsSoundly now s task v room there)
