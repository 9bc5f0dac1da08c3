-- ===== src/Tests/RequestTests.antt =====
-- crates/preload/src/lib.rs, alone and against crates/daemon/src/server.rs: requests and their responses, at
-- samples.
use fake_notify.Base.{
  ℕ, normal, ◌≡◌, refl, true, some, [], ◌∷◌, ◌++◌, length, get, nat_eq, ok, arith,
}
use fake_notify.Protocol.Message.{
  Request, add_watch, watch_added, request_to_bytes, response_to_bytes, frame,
}
use fake_notify.Daemon.State
use fake_notify.Daemon.System.{System}
use fake_notify.Preload.{Peer, Stream, Socket, Process}
use fake_notify.Preload.Threads.Crossing.{crossed, crossed_descriptors}
use fake_notify.Tests.PreloadTests.{libc, process}
use fake_notify.Tests.Samples.{codec, codec-IsFaithful}
use fake_notify.Tests.LogTests.{greeted_client}

abbrev peer : Peer
peer = record { output = λ sent. greeted_client.writer.written ++ frame (4 ∷ []); accepts = true }

abbrev stream : Stream
stream = record { written = []; taken = length greeted_client.writer.written }

-- A socket on which the daemon answers two requests with two descriptors.
abbrev shared : Socket
shared = record {
  peer = record {
    output = λ sent. greeted_client.writer.written ++ (frame (1 ∷ 5 ∷ []) ++ frame (1 ∷ 6 ∷ []));
    accepts = true;
  };
  stream = stream;
}

abbrev sharing : Process
sharing = record process { managed_fds = some (3 ∷ []); sockets = (3, shared) ∷ [] }

abbrev asks : ℕ → Request
asks letter = add_watch (normal (letter ∷ []) ∷ []) 2

shared_there : get sharing.sockets 3 ≡ some shared
unfolding get
shared_there = refl

asked : (letter : ℕ) → request_to_bytes codec (asks letter) ≡ ok (1 ∷ 2 ∷ letter ∷ [])
unfolding request_to_bytes
asked letter = refl

added : (wd : ℕ) → response_to_bytes codec (watch_added wd) ≡ ok (1 ∷ wd ∷ [])
unfolding response_to_bytes
added wd = refl

crossed_descriptors_example : crossed libc codec sharing 3 (asks 109) (asks 110) ≡ (5, 6)
crossed_descriptors_example =
    crossed_descriptors libc codec sharing 3 shared (asks 109) (asks 110) (1 ∷ 2 ∷ 109 ∷ [])
      (1 ∷ 2 ∷ 110 ∷ []) (1 ∷ 5 ∷ []) (1 ∷ 6 ∷ []) greeted_client.writer.written 5 6
      codec-IsFaithful shared_there refl (asked 109) (asked 110) (added 5) (added 6) (omega arith)
      (omega arith) refl refl
