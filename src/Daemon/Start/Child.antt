-- ===== src/Daemon/Start/Child.antt =====
-- crates/daemon/src/main.rs: the process in the background.
use fake_notify.Base.{
  ◌≡◌, refl, false, not, ◌&&◌, some, List, [], ◌∷◌, retain, contains, list_eq, nat_eq, list_beq_iff,
  Text, arith,
}
use fake_notify.Daemon.Start.{is_daemonize, child_args}

contains-retain :
    (args : List Text) (a : Text)
    → contains (retain (λ arg. not (is_daemonize arg)) args) a
      ≡ (contains args a && not (is_daemonize a))
contains-retain [] a = refl
contains-retain (x ∷ args) a =
    ground (arith, contains-retain args a, list_beq_iff x a, list_beq_iff a x)

-- The child is given every argument behind the name of the program but the two spellings of the
-- flag: a bundle of short options that holds `d` stays.
pub child_args_lem :
    (name : Text) (rest : List Text)
    → is_daemonize name ≡ false
    → (args : List Text) × (child_args (name ∷ rest) ≡ some args)
      × ((a : Text) → contains args a ≡ (contains rest a && not (is_daemonize a)))
unfolding child_args
child_args_lem name rest h =
    (retain (λ arg. not (is_daemonize arg)) rest, ground (arith, h), contains-retain rest)
