-- ===== src/Tests/Samples.antt =====
-- Clients, paths, states and a codec that the tests share.
use fake_notify.Base.{
  ℕ, ◌≡◌, refl, true, false, some, List, [], ◌∷◌, get, nat_eq, FilePath, Text, ascii, Component,
  Result, ok, err, insert, modify, parent, list_eq, component_eq, zero, suc, arith, path_text,
}
use Component.{root_dir, normal}
use fake_notify.Protocol.Message.{
  Bincode, IsFaithful, Request, register_client, add_watch, remove_watch, ping, Response,
  client_registered, watch_added, watch_removed, error, pong,
}
use fake_notify.Daemon.State
use fake_notify.Daemon.State.{
  DaemonState, WatchInfo, Writer, Client, new, new_client, push_watch, existing,
}
use fake_notify.Daemon.State.Queries.{find_watch_for_path, find_in_parents, recursive_watch}
use fake_notify.Daemon.State.Steps.{registers, adds, Reach, here, next, Reach-IsValid}
use fake_notify.Daemon.Server.{Platform}
use fake_notify.Daemon.State.Invariant.{IsValid}
use fake_notify.Daemon.State.Invariant.Joining.{HasRoom}

abbrev pub socket : Writer
socket = record { written = []; is_open = true; spare = 0 }

abbrev pub hung_up : Writer
hung_up = record { written = []; is_open = false; spare = 0 }

abbrev pub media : FilePath
media = root_dir ∷ normal (ascii "media") ∷ []

abbrev pub film : FilePath
film = root_dir ∷ normal (ascii "media") ∷ normal (ascii "film.mkv") ∷ []

-- Two clients, and a recursive watch on a directory for the first.
abbrev pub one_client : DaemonState
one_client = (State.register_client new socket).0

abbrev pub two_clients : DaemonState
two_clients = (State.register_client one_client socket).0

abbrev pub watched : DaemonState
watched = (State.add_watch two_clients 1 media 0x0fff true).0

pub new-HasRoom : HasRoom new
unfolding new
new-HasRoom = omega arith

pub one_client-HasRoom : HasRoom one_client
unfolding new State.register_client
one_client-HasRoom = omega arith

pub two_clients-HasRoom : HasRoom two_clients
unfolding new State.register_client
two_clients-HasRoom = omega arith

pub first_connected : get two_clients.clients 1 ≡ some (new_client 1 socket)
unfolding new State.register_client new_client get insert
first_connected = refl

abbrev pub two_clients-Reach : Reach new two_clients
two_clients-Reach = next (next here (registers socket refl)) (registers socket refl)

abbrev pub watched-Reach : Reach new watched
watched-Reach =
    next two_clients-Reach (adds 1 (new_client 1 socket) media 0x0fff true first_connected refl)

pub two_clients-IsValid : IsValid two_clients
two_clients-IsValid = Reach-IsValid two_clients-Reach (omega arith)

pub watched-IsValid : IsValid watched
watched-IsValid = Reach-IsValid watched-Reach (omega arith)

-- The watch of the sample.
abbrev pub media_watch : WatchInfo
media_watch = record { wd = 1; path = media; mask = 0x0fff; recursive = true; clients = 1 ∷ [] }

pub media_watched : get watched.watches 1 ≡ some media_watch
unfolding new State.register_client State.add_watch existing get insert
media_watched = refl

pub film_served : find_watch_for_path watched film ≡ some media_watch
unfolding new State.register_client State.add_watch existing get insert modify push_watch
    find_watch_for_path find_in_parents recursive_watch parent
film_served = refl

-- A codec for some messages; it refuses the others.
abbrev pub serialize_request : Request → Result (List ℕ) Text
serialize_request register_client = ok (0 ∷ [])
serialize_request (add_watch (normal name ∷ []) mask) = ok (1 ∷ mask ∷ name)
serialize_request (remove_watch wd) = ok (2 ∷ wd ∷ [])
serialize_request ping = ok (3 ∷ [])
serialize_request (add_watch _ mask) = err (ascii "unsupported path")

abbrev pub deserialize_request : List ℕ → Result Request Text
deserialize_request (zero ∷ []) = ok register_client
deserialize_request ((suc zero) ∷ mask ∷ name) = ok (add_watch (normal name ∷ []) mask)
deserialize_request ((suc (suc zero)) ∷ wd ∷ []) = ok (remove_watch wd)
deserialize_request ((suc (suc (suc zero))) ∷ []) = ok ping
deserialize_request _ = err (ascii "invalid request")

abbrev pub serialize_response : Response → Result (List ℕ) Text
serialize_response (client_registered id) = ok (0 ∷ id ∷ [])
serialize_response (watch_added wd) = ok (1 ∷ wd ∷ [])
serialize_response watch_removed = ok (2 ∷ [])
serialize_response (error message) = ok (3 ∷ message)
serialize_response pong = ok (4 ∷ [])

abbrev pub deserialize_response : List ℕ → Result Response Text
deserialize_response (zero ∷ id ∷ []) = ok (client_registered id)
deserialize_response ((suc zero) ∷ wd ∷ []) = ok (watch_added wd)
deserialize_response ((suc (suc zero)) ∷ []) = ok watch_removed
deserialize_response ((suc (suc (suc zero))) ∷ message) = ok (error message)
deserialize_response ((suc (suc (suc (suc zero)))) ∷ []) = ok pong
deserialize_response _ = err (ascii "invalid response")

abbrev pub codec : Bincode
codec = record {
  serialize_request = serialize_request;
  deserialize_request = deserialize_request;
  serialize_response = serialize_response;
  deserialize_response = deserialize_response;
}

request_back :
    (r : Request) (bs : List ℕ) → serialize_request r ≡ ok bs → deserialize_request bs ≡ ok r
request_back register_client bs h = ground (arith, h)
request_back (add_watch (normal name ∷ []) mask) bs h = ground (arith, h)
request_back (add_watch path mask) bs h = absurd (ground (arith, h))
request_back (remove_watch wd) bs h = ground (arith, h)
request_back ping bs h = ground (arith, h)

response_back :
    (r : Response) (bs : List ℕ) → serialize_response r ≡ ok bs → deserialize_response bs ≡ ok r
response_back (client_registered id) bs h = ground (arith, h)
response_back (watch_added wd) bs h = ground (arith, h)
response_back watch_removed bs h = ground (arith, h)
response_back (error message) bs h = ground (arith, h)
response_back pong bs h = ground (arith, h)

pub codec-IsFaithful : IsFaithful codec
codec-IsFaithful = record { request = request_back; response = response_back }

-- A system on which every path is there.
abbrev pub os : Platform
os = record { bincode = codec; exists = λ now path. true; display = path_text }
