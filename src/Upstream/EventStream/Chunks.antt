-- ===== src/Upstream/EventStream/Chunks.antt =====
-- The frame decoder of src/upstream/event_stream.rs over a stream of chunks: where the bytes are
-- cut makes no difference to the messages.
use kiro_gateway.Common.{
  ℕ, zero, suc, ◌≤◌, ◌<◌, ◌≡◌, refl, sym, ap, ◌∙◌, Bool, true, false, not, ◌&&◌, ◌||◌, List, [],
  ◌∷◌, ◌++◌, Option, none, some, length, take, drop, ltb, arith, Bool-cases, inl, inr, ◌⊎◌,
  take-append_left, drop-append_left, length-drop, length-append,
}
use kiro_gateway.Common.Result.{Result, ok, err}
use kiro_gateway.Upstream.EventStream.{
  UpstreamStreamError, EventMessage, be, slice, decode_frame, lengths_ok, decode_one, push_loop,
}

module _ (checksum : List ℕ → ℕ) (max : ℕ) where
  -- The buffer holds a whole frame, or lengths that are refused.
  abbrev pub ready : List ℕ → Bool
  ready buffer =
      not (ltb (length buffer) 12)
      && (not (lengths_ok checksum max (be (take 4 buffer)) (be (slice 4 8 buffer)))
          || not (ltb (length buffer) (be (take 4 buffer))))

  decode_one-not_ready :
      (buffer : List ℕ) → ready buffer ≡ false → decode_one checksum max buffer ≡ (buffer, ok none)
  unfolding decode_one
  decode_one-not_ready buffer h = ground arith

  take4-append : (b more : List ℕ) → 12 ≤ length b → take 4 (b ++ more) ≡ take 4 b
  take4-append b more h = take-append_left 4 b more (omega arith)

  slice-append : (b more : List ℕ) → 12 ≤ length b → slice 4 8 (b ++ more) ≡ slice 4 8 b
  slice-append b more h =
      ap (take 4) (drop-append_left 4 b more (omega arith))
      ∙ take-append_left 4 (drop 4 b) more (omega (arith, length-drop 4 b))

  decode_one-ready :
      (b more : List ℕ)
      → ready b ≡ true
      → decode_one checksum max (b ++ more)
        ≡ ((decode_one checksum max b).0 ++ more, (decode_one checksum max b).1)
  unfolding decode_one
  decode_one-ready b more h =
      let long : 12 ≤ length b = ground arith in
      rw (take4-append b more long, slice-append b more long, length-append b more)
        (ground
          (arith, drop-append_left (be (take 4 b)) b more, take-append_left (be (take 4 b)) b more))

  -- A frame that is whole gives a message or an error, and takes sixteen bytes at least.
  abbrev pub Progress : List ℕ → List ℕ × Result (Option EventMessage) UpstreamStreamError → Type 0
  Progress b r = elim r.1 [ err e ↦ Unit | ok none ↦ ⊥ | ok (some m) ↦ length r.0 < length b ]

  decode_frame-Progress :
      (t h : ℕ) (b b' frame : List ℕ)
      → length b' < length b
      → Progress b (b', decode_frame checksum t h frame)
  unfolding decode_frame
  decode_frame-Progress t h b b' frame lt = ground arith

  pub decode_one-Progress : (b : List ℕ) → ready b ≡ true → Progress b (decode_one checksum max b)
  unfolding decode_one
  decode_one-Progress b h =
      let total = be (take 4 b) in
      let long : ltb (length b) 12 ≡ false = ground arith in
      elim (Bool-cases (lengths_ok checksum max total (be (slice 4 8 b)))) [
        | inr bad ↦ rw (long, bad, decode_one) tt
        | inl good ↦
            let whole : ltb (length b) total ≡ false = ground arith in
            let least : 16 ≤ total = ground arith in
            let enough : total ≤ length b = ground arith in
            rw (long, good, whole, decode_one)
              (decode_frame-Progress total (be (slice 4 8 b)) b (drop total b) (take total b)
                (omega (arith, length-drop total b)))
      ]

  abbrev pub Decoded : Type 0
  Decoded = List ℕ × Result (List EventMessage) UpstreamStreamError

  -- What the loop does with one decoding, going on by `go`.
  abbrev pub step :
      (List ℕ → List EventMessage → Decoded)
      → List EventMessage
      → List ℕ × Result (Option EventMessage) UpstreamStreamError
      → Decoded
  step go out r = elim r.1 [
    | err e ↦ (r.0, err e)
    | ok none ↦ (r.0, ok out)
    | ok (some m) ↦ go r.0 (out ++ m ∷ [])
  ]

  step-Progress :
      (go go' : List ℕ → List EventMessage → Decoded) (out : List EventMessage) (b : List ℕ)
      (r : List ℕ × Result (Option EventMessage) UpstreamStreamError)
      → (Progress b r ⊎ (r.1 ≡ ok none))
      → ((b' : List ℕ) (out' : List EventMessage) → length b' < length b → go b' out' ≡ go' b' out')
      → step go out r ≡ step go' out r
  step-Progress go go' out b (b', err e) p same = refl
  step-Progress go go' out b (b', ok none) p same = refl
  step-Progress go go' out b (b', ok (some m)) (inl p) same = same b' (out ++ m ∷ []) p
  step-Progress go go' out b (b', ok (some m)) (inr e) same = absurd (ground arith)

  pub Progress-or-none :
      (b : List ℕ)
      → Progress b (decode_one checksum max b) ⊎ ((decode_one checksum max b).1 ≡ ok none)
  Progress-or-none b = elim (Bool-cases (ready b)) [
    | inl h ↦ inl (decode_one-Progress b h)
    | inr h ↦ inr (ap (λ r. r.1) (decode_one-not_ready b h))
  ]

  -- Any fuel above the length of the buffer gives the same.
  push_loop-fuel :
      (f f' : ℕ) (b : List ℕ) (out : List EventMessage)
      → length b < f
      → length b < f'
      → push_loop checksum max f b out ≡ push_loop checksum max f' b out
  unfolding push_loop
  push_loop-fuel zero f' b out h h' = absurd (omega arith)
  push_loop-fuel (suc f) zero b out h h' = absurd (omega arith)
  push_loop-fuel (suc f) (suc f') b out h h' =
      step-Progress (push_loop checksum max f) (push_loop checksum max f') out b
        (decode_one checksum max b) (Progress-or-none b)
        (λ b' out' lt. push_loop-fuel f f' b' out' (omega arith) (omega arith))

  -- The loop with enough fuel.
  unfoldable pub run : List ℕ → List EventMessage → Decoded
  run b out = push_loop checksum max (suc (length b)) b out

  pub run-step :
      (b : List ℕ) (out : List EventMessage) → run b out ≡ step run out (decode_one checksum max b)
  unfolding run push_loop
  run-step b out =
      step-Progress (push_loop checksum max (length b)) run out b (decode_one checksum max b)
        (Progress-or-none b)
        (λ b' out' lt. push_loop-fuel (length b) (suc (length b')) b' out' lt (omega arith))

  -- More bytes after a run: an error stays, otherwise the loop goes on with the new bytes.
  abbrev pub continue : List ℕ → Decoded → Decoded
  continue more r = elim r.1 [ err e ↦ (r.0 ++ more, err e) | ok out ↦ run (r.0 ++ more) out ]

  continue-step :
      (more : List ℕ) (out : List EventMessage) (b : List ℕ)
      (r : List ℕ × Result (Option EventMessage) UpstreamStreamError)
      → Progress b r
      → ((b' : List ℕ) (out' : List EventMessage)
          → length b' < length b
          → run (b' ++ more) out' ≡ continue more (run b' out'))
      → step run out (r.0 ++ more, r.1) ≡ continue more (step run out r)
  continue-step more out b (b', err e) p ih = refl
  continue-step more out b (b', ok none) p ih = absurd p
  continue-step more out b (b', ok (some m)) p ih = ih b' (out ++ m ∷ []) p

  run-append_below :
      (n : ℕ) (b more : List ℕ) (out : List EventMessage)
      → length b < n
      → run (b ++ more) out ≡ continue more (run b out)
  run-append_below zero b more out h = absurd (omega arith)
  run-append_below (suc n) b more out h = elim (Bool-cases (ready b)) [
    | inr waiting ↦
        sym
          (ap (continue more) (run-step b out ∙ ap (step run out) (decode_one-not_ready b waiting)))
    | inl ready ↦
        run-step (b ++ more) out
        ∙ ap (step run out) (decode_one-ready b more ready)
        ∙ continue-step more out b (decode_one checksum max b) (decode_one-Progress b ready)
            (λ b' out' lt. run-append_below n b' more out' (omega arith))
        ∙ ap (continue more) (sym (run-step b out))
  ]

  pub run-append :
      (b more : List ℕ) (out : List EventMessage) → run (b ++ more) out ≡ continue more (run b out)
  run-append b more out = run-append_below (suc (length b)) b more out (omega arith)
