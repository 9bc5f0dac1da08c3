-- ===== src/Preload/Threads.antt =====
-- crates/preload/src/lib.rs: `send_request` as two threads of a program run it. Nothing holds a descriptor
-- between the bytes of a request and the bytes of its response.
pub mod Crossing
use fake_notify.Base.{
  ℕ, Bool, true, false, Option, none, some, ◌++◌, ok, err, get, insert, nat_eq, if◌then◌else◌,
}
use fake_notify.Protocol.Message.{
  Bincode, Request, Response, watch_added, error, request_to_bytes, frame,
}
use fake_notify.Preload.{Libc, Process, Socket, minus_one, set_errno, read_response}

-- Up to the bytes of the request, and whether they are out.
unfoldable pub write_request : Bincode → Socket → Request → Socket × Bool
write_request b socket request = elim (request_to_bytes b request) [
  | err e ↦ (socket, false)
  | ok payload ↦
      if socket.peer.accepts
      then (
        record socket {
          stream = record socket.stream { written = socket.stream.written ++ frame payload };
        },
        true,
      )
      else (socket, false)
]

unfoldable pub start_request : Bincode → Process → ℕ → Request → Process × Bool
unfolding write_request
start_request b p fd request = elim (get p.sockets fd) [
  | none ↦ (p, false)
  | some socket ↦
      let (socket', out) = write_request b socket request in
      (record p { sockets = insert p.sockets fd socket' }, out)
]

-- From there on: the frame that comes next on the descriptor.
unfoldable pub await_response : Bincode → Process → ℕ → Bool → Process × Option Response
await_response b p fd out = elim (get p.sockets fd) [
  | none ↦ (p, none)
  | some socket ↦
      let (s, response) = read_response b socket.peer socket.stream in
      if out
      then (record p { sockets = insert p.sockets fd (record socket { stream = s }) }, response)
      else (p, none)
]

-- The result of `inotify_add_watch`.
unfoldable pub finish_add : Libc → Process × Option Response → Process × ℕ
finish_add libc (p, response) = elim response [
  | some (watch_added wd) ↦ (p, wd)
  | some (error _) ↦ (set_errno p libc.einval, minus_one)
  | _ ↦ (set_errno p libc.eio, minus_one)
]
