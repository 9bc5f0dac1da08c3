-- ===== src/Daemon/State/Locks/Holders.antt =====
-- crates/daemon/src/state.rs: who holds the highest lock when every thread takes higher locks than it holds.
use fake_notify.Base.{
  ℕ, ◌≤◌, ◌<◌, ◌≡◌, ◌⊎◌, inl, inr, refl, sym, subst, true, false, List, [], ◌∷◌, All, contains,
  is_empty, nat_eq, ◌==◌, arith, leb, Bool-cases,
}
use fake_notify.Daemon.State.Locks.{Thread, is_done, is_free, can_step}

abbrev pub Any : {A : Type 0} → (A → Type 0) → List A → Type 0
Any P [] = ⊥
Any P (x ∷ xs) = P x ⊎ Any P xs

pub Any-All :
    {A : Type 0} (P Q R : A → Type 0) (xs : List A)
    → ((x : A) → P x → Q x → R x)
    → Any P xs
    → All Q xs
    → Any R xs
Any-All P Q R [] f h k = absurd h
Any-All P Q R (x ∷ xs) f (inl h) k = inl (f x h k.0)
Any-All P Q R (x ∷ xs) f (inr h) k = inr (Any-All P Q R xs f h k.1)

All-map :
    {A : Type 0} (P Q : A → Type 0) (xs : List A) → ((x : A) → P x → Q x) → All P xs → All Q xs
All-map P Q [] f h = tt
All-map P Q (x ∷ xs) f h = (f x h.0, All-map P Q xs f h.1)

-- Every lock is taken while only lower ones are held.
abbrev pub Above : List ℕ → List ℕ → Type 0
Above held [] = Unit
Above held (lock ∷ rest) = All (λ h. h < lock) held × Above (lock ∷ held) rest

abbrev pub IsOrdered : Thread → Type 0
IsOrdered t = Above t.held t.wanted × All (Above []) t.later

abbrev pub AtMost : ℕ → Thread → Type 0
AtMost m t = All (λ h. h ≤ m) t.held

contains-below :
    (held : List ℕ) (m lock : ℕ) → contains held m ≡ true → All (λ h. h < lock) held → m < lock
contains-below [] m lock h k = absurd (ground (arith, h))
contains-below (x ∷ xs) m lock h k = elim (Bool-cases (x == m)) [
  | inl same ↦ ground (arith, same, k.0)
  | inr other ↦ contains-below xs m lock (ground (arith, other, h)) k.1
]

contains-above :
    (held : List ℕ) (m lock : ℕ) → All (λ h. h ≤ m) held → m < lock → contains held lock ≡ false
contains-above [] m lock h k = refl
contains-above (x ∷ xs) m lock h k = ground (arith, h.0, contains-above xs m lock h.1 k)

is_free-above :
    (ts : List Thread) (m lock : ℕ) → All (AtMost m) ts → m < lock → is_free ts lock ≡ true
unfolding is_free
is_free-above [] m lock h k = refl
is_free-above (t ∷ ts) m lock h k =
    ground (arith, contains-above t.held m lock h.0 k, is_free-above ts m lock h.1 k)

is_free-idle : (ts : List Thread) (lock : ℕ) → All (λ t. t.held ≡ []) ts → is_free ts lock ≡ true
unfolding is_free
is_free-idle [] lock h = refl
is_free-idle (t ∷ ts) lock h = ground (arith, h.0, is_free-idle ts lock h.1)

contains-busy : (held : List ℕ) (m : ℕ) → contains held m ≡ true → is_empty held ≡ false
contains-busy [] m h = absurd (ground (arith, h))
contains-busy (x ∷ xs) m h = refl

-- The highest lock of some, and the one thread's that holds it.
top_of :
    (held : List ℕ) → (held ≡ []) ⊎ ((m : ℕ) × (contains held m ≡ true) × All (λ h. h ≤ m) held)
top_of [] = inl refl
top_of (x ∷ xs) = elim (top_of xs) [
  | inl none_more ↦
      inr (x, ground arith, (omega arith, subst (All (λ h. h ≤ x)) (sym none_more) tt))
  | inr (m, there, most) ↦ elim (Bool-cases (leb x m)) [
    | inl below ↦ inr (m, ground (arith, there), (ground (arith, below), most))
    | inr above ↦ inr (
      x,
      ground arith,
      (omega arith, All-map (λ h. h ≤ m) (λ h. h ≤ x) xs (λ h k. ground (arith, above, k)) most),
    )
  ]
]

-- No thread holds a lock, or one holds the highest lock that any holds.
pub top_holder :
    (ts : List Thread)
    → All (λ t. t.held ≡ []) ts
      ⊎ ((m : ℕ) × Any (λ t. contains t.held m ≡ true) ts × All (AtMost m) ts)
top_holder [] = inl tt
top_holder (t ∷ ts) = elim (top_of t.held) [
  | inl free ↦ elim (top_holder ts) [
    | inl all_free ↦ inl (free, all_free)
    | inr (m, there, most) ↦ inr (m, inr there, (subst (All (λ h. h ≤ m)) (sym free) tt, most))
  ]
  | inr (n, holds, own) ↦ elim (top_holder ts) [
    | inl all_free ↦ inr (
      n,
      inl holds,
      (
        own,
        All-map (λ u. u.held ≡ []) (AtMost n) ts (λ u e. subst (All (λ h. h ≤ n)) (sym e) tt)
            all_free,
      ),
    )
    | inr (m, there, most) ↦ elim (Bool-cases (leb n m)) [
      | inl below ↦ inr (
        m,
        inr there,
        (All-map (λ h. h ≤ n) (λ h. h ≤ m) t.held (λ h k. ground (arith, below, k)) own, most),
      )
      | inr above ↦ inr (
        n,
        inl holds,
        (
          own,
          All-map (AtMost m) (AtMost n) ts
              (λ u least.
                All-map (λ h. h ≤ m) (λ h. h ≤ n) u.held (λ h k. ground (arith, above, k)) least)
              most,
        ),
      )
    ]
  ]
]

-- The holder of the highest lock is not kept waiting.
pub holder_steps :
    (ts : List Thread) (m : ℕ) (t : Thread)
    → All (AtMost m) ts
    → contains t.held m ≡ true
    → IsOrdered t
    → can_step ts t ≡ true
unfolding can_step is_done
holder_steps ts m t most holds order = go t.wanted refl
  where
    go : (x : List ℕ) → t.wanted ≡ x → can_step ts t ≡ true
    go [] e = ground (arith, e, contains-busy t.held m holds)
    go (lock ∷ rest) e =
        let below = (subst (Above t.held) e order.0).0 in
        ground (arith, e, is_free-above ts m lock most (contains-below t.held m lock holds below))

pub free_steps :
    (ts : List Thread) (t : Thread)
    → All (λ u. u.held ≡ []) ts
    → t.held ≡ []
    → is_done t ≡ false
    → can_step ts t ≡ true
unfolding can_step
free_steps ts t free none_held busy = go t.wanted refl
  where
    go : (x : List ℕ) → t.wanted ≡ x → can_step ts t ≡ true
    go [] e = ground (arith, e, busy)
    go (lock ∷ rest) e = ground (arith, e, is_free-idle ts lock free)
