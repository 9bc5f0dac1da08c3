-- ===== src/Daemon/State/Locks/Order.antt =====
-- crates/daemon/src/state.rs: the methods take their locks in one order, so none waits for ever.
use fake_notify.Base.{
  ℕ, ◌≡◌, inl, inr, refl, sym, subst, true, false, List, [], ◌∷◌, All, All-append, All-replaced,
  contains, nat_eq, arith, map,
}
use fake_notify.Daemon.State.Locks.{
  Method, client_locks, sections, calls, Thread, thread, is_done, can_step, step, Reach, here, next,
}
use fake_notify.Daemon.State.Locks.Holders.{
  Any, Any-All, Above, IsOrdered, top_holder, holder_steps, free_steps,
}

sections-Above : (m : Method) → All (Above []) (sections m)
unfolding sections client_locks
sections-Above Method.register_client = omega arith
sections-Above (Method.unregister_client true) = omega arith
sections-Above (Method.unregister_client false) = omega arith
sections-Above Method.get_client = omega arith
sections-Above (Method.add_watch true) = omega arith
sections-Above (Method.add_watch false) = omega arith
sections-Above (Method.remove_watch true true) = omega arith
sections-Above (Method.remove_watch true false) = omega arith
sections-Above (Method.remove_watch false connected) = omega arith
sections-Above Method.get_watched_paths = omega arith
sections-Above Method.get_watch = omega arith
sections-Above Method.get_wd_for_path = omega arith
sections-Above Method.find_watch_for_path = omega arith
sections-Above Method.get_clients_for_watch = omega arith

calls-Above : (ms : List Method) → All (Above []) (calls ms)
unfolding calls
calls-Above [] = tt
calls-Above (m ∷ ms) =
    All-append (Above []) (sections m) (calls ms) (sections-Above m) (calls-Above ms)

thread-IsOrdered : (programs : List (List Method)) → All IsOrdered (map thread programs)
unfolding thread
thread-IsOrdered [] = tt
thread-IsOrdered (ms ∷ programs) = ((tt, calls-Above ms), thread-IsOrdered programs)

step-IsOrdered : (t : Thread) → IsOrdered t → IsOrdered (step t)
unfolding step
step-IsOrdered t h = go t.wanted t.later refl refl
  where
    go : (x : List ℕ) (y : List (List ℕ)) → t.wanted ≡ x → t.later ≡ y → IsOrdered (step t)
    go (lock ∷ rest) y e f = rw (e, step) ((subst (Above t.held) e h.0).1, h.1)
    go [] [] e f = rw (e, f, step) (subst (Above []) (sym e) tt, h.1)
    go [] (section ∷ more) e f = rw (e, f, step) (subst (All (Above [])) f h.1)

Reach-IsOrdered : {start ts : List Thread} → All IsOrdered start → Reach start ts → All IsOrdered ts
Reach-IsOrdered h here = h
Reach-IsOrdered h (next before after t r e can f) = subst (All IsOrdered) (sym f) (
    All-replaced IsOrdered before after t (step t) (step-IsOrdered t)
      (subst (All IsOrdered) e (Reach-IsOrdered h r)))

-- However threads that call the methods of `DaemonState` interleave, each taking the locks that a call
-- takes with what it finds, in the method's order, and waiting while another thread holds the next: as
-- long as a thread is not done, some thread can go on. `stats`, which nothing calls, is left out.
pub Reach-steps :
    (programs : List (List Method)) (ts : List Thread)
    → Reach (map thread programs) ts
    → Any (λ t. is_done t ≡ false) ts
    → Any (λ t. can_step ts t ≡ true) ts
Reach-steps programs ts r busy =
    let ordered = Reach-IsOrdered (thread-IsOrdered programs) r in
    elim (top_holder ts) [
      | inl free ↦
          Any-All (λ t. is_done t ≡ false) (λ t. t.held ≡ []) (λ t. can_step ts t ≡ true) ts
            (λ t b e. free_steps ts t free e b) busy free
      | inr (m, there, most) ↦
          Any-All (λ t. contains t.held m ≡ true) IsOrdered (λ t. can_step ts t ≡ true) ts
            (λ t h o. holder_steps ts m t most h o) there ordered
    ]
