-- ===== src/Upstream/EventStream/Push.antt =====
-- Pushing chunks into the decoder of src/upstream/event_stream.rs.
use kiro_gateway.Common.{
  ℕ, zero, suc, ◌<◌, ◌≡◌, refl, sym, ap, ◌∙◌, List, [], ◌∷◌, ◌++◌, Option, none, some, length,
  arith, append_assoc, append-nil, ◌⊎◌, inl, inr,
}
use kiro_gateway.Common.Result.{Result, ok, err}
use kiro_gateway.Upstream.EventStream.{
  UpstreamStreamError, EventMessage, EventStreamDecoder, decode_one, push,
}
use kiro_gateway.Upstream.EventStream.Chunks.{
  step, continue, run, run-step, run-append, Progress, Progress-or-none,
}

-- Messages that were found before.
abbrev prefixed :
    List EventMessage
    → List ℕ × Result (List EventMessage) UpstreamStreamError
    → List ℕ × Result (List EventMessage) UpstreamStreamError
prefixed before r = elim r.1 [ err e ↦ (r.0, err e) | ok ms ↦ (r.0, ok (before ++ ms)) ]

-- The messages of a first push come before those of what follows.
abbrev followed :
    EventStreamDecoder × Result (List EventMessage) UpstreamStreamError
    → EventStreamDecoder × Result (List EventMessage) UpstreamStreamError
    → EventStreamDecoder × Result (List EventMessage) UpstreamStreamError
followed r rest = elim r.1 [
  | err e ↦ (r.0, err e)
  | ok ms ↦ elim rest.1 [ err e ↦ (rest.0, err e) | ok more ↦ (rest.0, ok (ms ++ more)) ]
]

-- What the rest of a chunk gives after its first part, if that was pushed alone.
abbrev resumed :
    (List ℕ → ℕ)
    → List ℕ
    → EventStreamDecoder × Result (List EventMessage) UpstreamStreamError
    → EventStreamDecoder × Result (List EventMessage) UpstreamStreamError
resumed checksum chunk (d, err e) = (record d { buffer = d.buffer ++ chunk }, err e)
resumed checksum chunk (d, ok ms) = followed (d, ok ms) (push checksum chunk d)

-- Chunks that are pushed one after another until a push fails, as the caller does: the decoder
-- after the last push, and the messages of all pushes or the error.
unfoldable pub push_chunks :
    (List ℕ → ℕ)
    → List ℕ
    → List (List ℕ)
    → EventStreamDecoder
    → EventStreamDecoder × Result (List EventMessage) UpstreamStreamError
push_chunks checksum chunk [] d = push checksum chunk d
push_chunks checksum chunk (next ∷ chunks) d =
    let r = push checksum chunk d in
    let rest = push_chunks checksum next chunks r.0 in
    elim r.1 [
      | err e ↦ (r.0, err e)
      | ok ms ↦ elim rest.1 [ err e ↦ (rest.0, err e) | ok more ↦ (rest.0, ok (ms ++ more)) ]
    ]

abbrev pub joined : List ℕ → List (List ℕ) → List ℕ
joined chunk [] = chunk
joined chunk (next ∷ chunks) = chunk ++ joined next chunks

-- The same messages and the same decoder, or the same error.
abbrev pub Agrees :
    EventStreamDecoder × Result (List EventMessage) UpstreamStreamError
    → EventStreamDecoder × Result (List EventMessage) UpstreamStreamError
    → Type 0
Agrees (d, ok ms) r = r ≡ (d, ok ms)
Agrees (d, err e) r = r.1 ≡ err e

module _ (checksum : List ℕ → ℕ) (max : ℕ) where
  step-prefixed :
      (before out : List EventMessage) (b : List ℕ)
      (r : List ℕ × Result (Option EventMessage) UpstreamStreamError)
      → (Progress checksum max b r ⊎ (r.1 ≡ ok none))
      → ((b' : List ℕ) (out' : List EventMessage)
          → length b' < length b
          → run checksum max b' (before ++ out') ≡ prefixed before (run checksum max b' out'))
      → step checksum max (run checksum max) (before ++ out) r
        ≡ prefixed before (step checksum max (run checksum max) out r)
  step-prefixed before out b (b', err e) p ih = refl
  step-prefixed before out b (b', ok none) p ih = refl
  step-prefixed before out b (b', ok (some m)) (inl p) ih =
      ap (run checksum max b') (append_assoc before out (m ∷ [])) ∙ ih b' (out ++ m ∷ []) p
  step-prefixed before out b (b', ok (some m)) (inr e) ih = absurd (ground arith)

  run-prefixed_below :
      (n : ℕ) (b : List ℕ) (before out : List EventMessage)
      → length b < n
      → run checksum max b (before ++ out) ≡ prefixed before (run checksum max b out)
  run-prefixed_below zero b before out h = absurd (omega arith)
  run-prefixed_below (suc n) b before out h =
      run-step checksum max b (before ++ out)
      ∙ step-prefixed before out b (decode_one checksum max b) (Progress-or-none checksum max b)
          (λ b' out' lt. run-prefixed_below n b' before out' (omega arith))
      ∙ ap (prefixed before) (sym (run-step checksum max b out))

  run-prefixed :
      (b : List ℕ) (before : List EventMessage)
      → run checksum max b before ≡ prefixed before (run checksum max b [])
  run-prefixed b before =
      ap (run checksum max b) (sym (append-nil before))
      ∙ run-prefixed_below (suc (length b)) b before [] (omega arith)

push-eq-run :
    (checksum : List ℕ → ℕ) (chunk : List ℕ) (d : EventStreamDecoder)
    → push checksum chunk d ≡ (
      record d { buffer = (run checksum d.max_frame_size (d.buffer ++ chunk) []).0 },
      (run checksum d.max_frame_size (d.buffer ++ chunk) []).1,
    )
unfolding push run
push-eq-run checksum chunk d = refl

abbrev packed :
    EventStreamDecoder
    → List ℕ × Result (List EventMessage) UpstreamStreamError
    → EventStreamDecoder × Result (List EventMessage) UpstreamStreamError
packed d r = (record d { buffer = r.0 }, r.1)

packed-prefixed :
    (d : EventStreamDecoder) (b : List ℕ) (ms : List EventMessage)
    (r : List ℕ × Result (List EventMessage) UpstreamStreamError)
    → packed d (prefixed ms r) ≡ followed (packed d (b, ok ms)) (packed d r)
packed-prefixed d b ms (b', ok more) = refl
packed-prefixed d b ms (b', err e) = refl

continue-packed :
    (checksum : List ℕ → ℕ) (chunk : List ℕ) (d : EventStreamDecoder)
    (r : List ℕ × Result (List EventMessage) UpstreamStreamError)
    → packed d (continue checksum d.max_frame_size chunk r) ≡ resumed checksum chunk (packed d r)
continue-packed checksum chunk d (b, err e) = refl
continue-packed checksum chunk d (b, ok ms) =
    ap (packed d) (run-prefixed checksum d.max_frame_size (b ++ chunk) ms)
    ∙ packed-prefixed d b ms (run checksum d.max_frame_size (b ++ chunk) [])
    ∙ ap (followed (packed d (b, ok ms)))
        (sym (push-eq-run checksum chunk (record d { buffer = b })))

push-append :
    (checksum : List ℕ → ℕ) (a b : List ℕ) (d : EventStreamDecoder)
    → push checksum (a ++ b) d ≡ resumed checksum b (push checksum a d)
push-append checksum a b d =
    let max = d.max_frame_size in
    push-eq-run checksum (a ++ b) d
    ∙ ap (packed d) (
        ap (λ s. run checksum max s []) (sym (append_assoc d.buffer a b))
        ∙ run-append checksum max (d.buffer ++ a) b [])
    ∙ continue-packed checksum b d (run checksum max (d.buffer ++ a) [])
    ∙ ap (resumed checksum b) (sym (push-eq-run checksum a d))

Agrees-refl : (r : EventStreamDecoder × Result (List EventMessage) UpstreamStreamError) → Agrees r r
Agrees-refl (d, ok ms) = refl
Agrees-refl (d, err e) = refl

followed-Agrees :
    (d : EventStreamDecoder) (ms : List EventMessage)
    (p q : EventStreamDecoder × Result (List EventMessage) UpstreamStreamError)
    → Agrees p q
    → Agrees (followed (d, ok ms) p) (followed (d, ok ms) q)
followed-Agrees d ms (d1, ok more) q h = rw h refl
followed-Agrees d ms (d1, err e) q h = rw h refl

resumed-Agrees :
    (checksum : List ℕ → ℕ) (b : List ℕ)
    (r rest : EventStreamDecoder × Result (List EventMessage) UpstreamStreamError)
    → Agrees (push checksum b r.0) rest
    → Agrees (resumed checksum b r) (followed r rest)
resumed-Agrees checksum b (d, err e) rest h = refl
resumed-Agrees checksum b (d, ok ms) rest h = followed-Agrees d ms (push checksum b d) rest h

-- Chunks that are pushed one after another, until a push fails, give the messages and the decoder
-- that pushing all their bytes at once gives, for any checksum and any decoder; where pushing them
-- at once gives an error, pushing them one after another ends with the same error.
pub push_chunks-joined :
    (checksum : List ℕ → ℕ) (chunk : List ℕ) (chunks : List (List ℕ)) (d : EventStreamDecoder)
    → Agrees (push checksum (joined chunk chunks) d) (push_chunks checksum chunk chunks d)
unfolding push_chunks
push_chunks-joined checksum chunk [] d = Agrees-refl (push checksum chunk d)
push_chunks-joined checksum chunk (next ∷ chunks) d =
    let r = push checksum chunk d in
    rw (push-append checksum chunk (joined next chunks) d) (
      resumed-Agrees checksum (joined next chunks) r (push_chunks checksum next chunks r.0)
        (push_chunks-joined checksum next chunks r.0))
