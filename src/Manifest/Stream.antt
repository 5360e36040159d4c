-- ===== src/Manifest/Stream.antt =====
-- `hashStream` and `hashFile`: the digest of the bytes of a stream. What the stream does is a list
-- of events; SHA-256 is the parameter `digest`.
use code_push.Common.{ℕ, false, String, List, [], ◌∷◌, ◌++◌, ◌≡◌, refl, if◌then◌else◌}
use code_push.Common.Promise.{Failure, Promise, resolved, rejected, pending, is_pending}

-- A chunk of bytes, an error, or the end of the stream.
pub data StreamEvent : Type 0 where
  chunk : List ℕ → StreamEvent
  fails : Failure → StreamEvent
  ends : StreamEvent

-- The deferred, and the bytes that were piped into the hash so far.
pub record HashState : Type 0 where
  pub deferred : Promise String
  pub bytes : List ℕ

module _ (digest : List ℕ → String) where
  -- The handlers of "error" and "end", and the pipe into the hash.
  on_stream_event : StreamEvent → HashState → HashState
  on_stream_event (chunk b) s = record s { bytes = s.bytes ++ b }
  on_stream_event (fails e) s =
      if is_pending s.deferred then record s { deferred = rejected e } else s
  on_stream_event ends s =
      if is_pending s.deferred then record s { deferred = resolved (digest s.bytes) } else s

  run_stream : List StreamEvent → HashState → HashState
  unfolding on_stream_event
  run_stream [] s = s
  run_stream (e ∷ events) s = run_stream events (on_stream_event e s)

  unfoldable pub hash_stream : List StreamEvent → Promise String
  unfolding run_stream
  hash_stream events = (run_stream events (record { deferred = pending; bytes = [] })).deferred

  -- The first event that ends the stream decides.
  pub stream_result : List ℕ → List StreamEvent → Promise String
  stream_result bytes [] = pending
  stream_result bytes (chunk b ∷ events) = stream_result (bytes ++ b) events
  stream_result bytes (fails e ∷ events) = rejected e
  stream_result bytes (ends ∷ events) = resolved (digest bytes)

  run_stream_settled :
      (events : List StreamEvent) (s : HashState)
      → is_pending s.deferred ≡ false
      → (run_stream events s).deferred ≡ s.deferred
  unfolding run_stream
  run_stream_settled [] s h = refl
  run_stream_settled (chunk b ∷ events) s h = run_stream_settled events _ h
  run_stream_settled (fails e ∷ events) s h = rw (h, run_stream) (run_stream_settled events s h)
  run_stream_settled (ends ∷ events) s h = rw (h, run_stream) (run_stream_settled events s h)

  run_stream-eq-stream_result :
      (events : List StreamEvent) (bytes : List ℕ)
      → (run_stream events (record { deferred = pending; bytes = bytes })).deferred
        ≡ stream_result bytes events
  unfolding run_stream stream_result
  run_stream-eq-stream_result [] bytes = refl
  run_stream-eq-stream_result (chunk b ∷ events) bytes =
      run_stream-eq-stream_result events (bytes ++ b)
  run_stream-eq-stream_result (fails e ∷ events) bytes = run_stream_settled events _ refl
  run_stream-eq-stream_result (ends ∷ events) bytes = run_stream_settled events _ refl

  -- The promise is rejected if an error comes before the end of the stream, is resolved with the
  -- digest of all chunks before the end otherwise, and what comes later changes nothing.
  pub hash_stream-eq-stream_result :
      (events : List StreamEvent) → hash_stream events ≡ stream_result [] events
  unfolding hash_stream
  hash_stream-eq-stream_result events = run_stream-eq-stream_result events []
