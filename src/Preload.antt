-- ===== src/Preload.antt =====
-- crates/preload/src/lib.rs: the functions that the library puts in the place of libc's. The C library
-- is a parameter: the functions that `dlsym` found, the error numbers and the flags. The daemon at the
-- other end of a socket is a function from all that was written to it to all that it has written. A
-- panic, which `catch_unwind` turns into EIO, does not occur in the model.
pub mod Calls
pub mod Connect
pub mod Responses
pub mod Stale
pub mod Descriptors
pub mod DaemonPeer
pub mod Against
pub mod Overtaken
pub mod Undisturbed
pub mod Threads
use fake_notify.Base.{
  ℕ, zero, suc, ◌+◌, ◌*◌, ◌^◌, min, bit_and, Bool, true, false, not, Option, none, some, List, [],
  ◌∷◌, ◌++◌, ltb, nat_beq, length, take, drop, contains, without, if◌then◌else◌, Text, path_from,
  is_utf8, Result, ok, err, nat_eq, Map, insert,
}
use fake_notify.Protocol.Message.{
  Bincode, Request, register_client, add_watch, remove_watch, Response, client_registered,
  watch_added, watch_removed, error, request_to_bytes, response_from_bytes, frame, read_length,
  max_size,
}

-- `c_int` values are bit patterns.
abbrev pub minus_one : ℕ
minus_one = 4294967295

-- What the process has of libc; a function answers with its result.
pub record Libc : Type 0 where
  pub inotify_init : Option ℕ
  pub inotify_init1 : Option (ℕ → ℕ)
  pub inotify_add_watch : Option (ℕ → Text → ℕ → ℕ)
  pub inotify_rm_watch : Option (ℕ → ℕ → ℕ)
  pub close : Option (ℕ → ℕ)
  pub syscall_close : ℕ → ℕ
  pub o_nonblock : ℕ
  pub o_cloexec : ℕ
  pub eio : ℕ
  pub einval : ℕ
  pub enosys : ℕ

-- The socket behind a descriptor: what was written to it and how many bytes were read from it.
pub record Stream : Type 0 where
  pub written : List ℕ
  pub taken : ℕ

-- What the daemon has written by the time that it has been sent so much, and whether it takes more.
pub record Peer : Type 0 where
  pub output : List ℕ → List ℕ
  pub accepts : Bool

-- A descriptor that is a connection to the daemon.
pub record Socket : Type 0 where
  pub peer : Peer
  pub stream : Stream

-- The two statics that the functions share, `errno`, the open sockets and their two flags.
pub record Process : Type 0 where
  pub initialized : Bool
  pub managed_fds : Option (List ℕ)
  pub errno : ℕ
  pub sockets : Map ℕ Socket
  pub nonblock : List ℕ
  pub cloexec : List ℕ

unfoldable pub is_managed_fd : Process → ℕ → Bool
is_managed_fd p fd = elim p.managed_fds [ none ↦ false | some fds ↦ contains fds fd ]

unfoldable pub register_fd : Process → ℕ → Process
register_fd p fd = elim p.managed_fds [
  | none ↦ p
  | some fds ↦ record p { managed_fds = some (if contains fds fd then fds else fd ∷ fds) }
]

unfoldable pub unregister_fd : Process → ℕ → Process
unregister_fd p fd = elim p.managed_fds [
  | none ↦ p
  | some fds ↦ record p { managed_fds = some (without fd fds) }
]

unfoldable pub set_errno : Process → ℕ → Process
set_errno p e = record p { errno = e }

-- `init`: the statics after the library is loaded.
unfoldable pub init : Process → Process
init p = record p { managed_fds = some []; initialized = true }

-- `read_exact`: `none` if the bytes do not come before the timeout or the end. Those that came are taken
-- even so.
unfoldable pub read_from : Peer → Stream → ℕ → Stream × Option (List ℕ)
read_from peer s n =
    let waiting = drop s.taken (peer.output s.written) in
    if ltb (length waiting) n
    then (record s { taken = s.taken + length waiting }, none)
    else (record s { taken = s.taken + n }, some (take n waiting))

-- The rest of `send_request`, once the request is out.
unfoldable pub read_response : Bincode → Peer → Stream → Stream × Option Response
read_response b peer s =
    let (s', header) = read_from peer s 4 in
    elim header [
      | none ↦ (s', none)
      | some len_buf ↦ elim (read_length len_buf) [
        | none ↦ (s', none)
        | some len ↦
            if ltb max_size len
            then (s', none)
            else let (s'', body) = read_from peer s' len in
              elim body [
                | none ↦ (s'', none)
                | some payload ↦ (
                  s'',
                  elim (response_from_bytes b payload) [
                    | ok response ↦ some response
                    | err e ↦ none
                  ],
                )
              ]
      ]
    ]

unfoldable pub send_request : Bincode → Peer → Stream → Request → Stream × Option Response
send_request b peer s request = elim (request_to_bytes b request) [
  | err e ↦ (s, none)
  | ok payload ↦
      if peer.accepts
      then read_response b peer (record s { written = s.written ++ frame payload })
      else (s, none)
]

-- The pause after a failed attempt, in milliseconds.
unfoldable pub delay_ms : ℕ → ℕ
delay_ms attempt = min (100 * 2 ^ min attempt 4) 1000

-- The loop of `connect_to_daemon`: the connection, if it came to be, and for how long it slept.
-- `connects n` is the outcome of attempt n; more than 60 failures end the loop.
unfoldable pub connect_loop : {A : Type 0} → ℕ → (ℕ → Option A) → ℕ → ℕ → Option (Option A × ℕ)
unfolding delay_ms
connect_loop zero connects attempt slept = none
connect_loop (suc fuel) connects attempt slept =
    let attempt' = attempt + 1 in
    let slept' = slept + delay_ms attempt' in
    let again = connect_loop fuel connects attempt' slept' in
    elim (connects attempt) [
      | some stream ↦ some (some stream, slept)
      | none ↦ elim (ltb 60 attempt') [ true ↦ some (none, slept') | false ↦ again ]
    ]

unfoldable pub connect_to_daemon : {A : Type 0} → (ℕ → Option A) → Option (Option A × ℕ)
connect_to_daemon connects = connect_loop 61 connects 0 0
