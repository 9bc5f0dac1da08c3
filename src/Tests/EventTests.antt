-- ===== src/Tests/EventTests.antt =====
-- crates/protocol/src: the theorems on events and socket paths at samples.
use fake_notify.Base.{ℕ, ◌≡◌, some, List, [], ◌∷◌, map, big, ascii, Text, arith, list_eq, nat_eq}
use fake_notify.Protocol.Event.{InotifyEvent, in_create, in_modify}
use fake_notify.Protocol.Event.Layout.{IsWellFormed, Fits}
use fake_notify.Protocol.Event.Stream.{
  IsSendable, IsName, received, read_events, write_events, read_events-write_events,
}

abbrev creation : InotifyEvent
creation = record { wd = 1; mask = in_create; cookie = 0; len = 0 }

abbrev change : InotifyEvent
change = record { wd = 2; mask = in_modify; cookie = 0; len = 0 }

abbrev film_name : Text
film_name = ascii "film.mkv"

creation-IsWellFormed : IsWellFormed creation
creation-IsWellFormed = omega arith

change-IsWellFormed : IsWellFormed change
change-IsWellFormed = omega arith

film_name-Fits : Fits film_name
film_name-Fits = omega arith

film_name-IsName : IsName film_name
film_name-IsName = ground arith

creation-IsSendable : IsSendable (creation, film_name)
creation-IsSendable = record {
  words = creation-IsWellFormed;
  fits = film_name-Fits;
  no_zero = film_name-IsName;
}

change-IsSendable : IsSendable (change, film_name)
change-IsSendable = record {
  words = change-IsWellFormed;
  fits = film_name-Fits;
  no_zero = film_name-IsName;
}

abbrev items : List (InotifyEvent × List ℕ)
items = (creation, film_name) ∷ (change, film_name) ∷ []

read_events-write_events_example :
    read_events big 2 (write_events big items) ≡ some (map received items)
read_events-write_events_example =
    read_events-write_events big items 2 (creation-IsSendable, (change-IsSendable, tt))
      (omega arith)
