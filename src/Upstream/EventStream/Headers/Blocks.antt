-- ===== src/Upstream/EventStream/Headers/Blocks.antt =====
-- The loop of `parse_headers` in src/upstream/event_stream.rs against the format that it reads.
use kiro_gateway.Common.{
  ℕ, zero, suc, ◌≤◌, ◌≡◌, refl, sym, ap, ◌∙◌, List, [], ◌∷◌, ◌++◌, append-nil, append_assoc, some,
  length, length-append, inl, inr, arith, subst, unwrap_or,
}
use kiro_gateway.Common.Text.{Text}
use kiro_gateway.Common.Result.{Result, ok, err, Result-cases}
use kiro_gateway.Upstream.EventStream.{
  UpstreamStreamError, malformed_header, header_round, parse_headers_from, parse_headers,
}
use kiro_gateway.Upstream.EventStream.Headers.{
  RawHeader, meaning, meaning_all, written, written_all, IsHeaders, Reads,
}
use kiro_gateway.Upstream.EventStream.Headers.Values.{ok-inj}
use kiro_gateway.Upstream.EventStream.Headers.Rounds.{some-bind, round-ok, round-reads}
use kiro_gateway.Upstream.EventStream.Headers.Errors.{header_round-err}

length-written : (h : RawHeader) (rest : List ℕ) → suc (length rest) ≤ length (written h rest)
length-written h rest = omega (
  arith,
  length-append h.name (h.value_type ∷ (h.size ++ (h.value ++ rest))),
  length-append h.size (h.value ++ rest),
  length-append h.value rest,
)

step-ok :
    (fuel n : ℕ) (bytes : List ℕ) (before kept : List (Text × Text)) (rest : List ℕ)
    → header_round n bytes ≡ ok (kept, rest)
    → parse_headers_from (suc fuel) (n ∷ bytes) before
      ≡ parse_headers_from fuel rest (before ++ kept)
unfolding parse_headers_from
step-ok fuel n bytes before kept rest k = rw (k, parse_headers_from) refl

step-err :
    (fuel n : ℕ) (bytes : List ℕ) (before : List (Text × Text)) (e : UpstreamStreamError)
    → header_round n bytes ≡ err e
    → parse_headers_from (suc fuel) (n ∷ bytes) before ≡ err e
unfolding parse_headers_from
step-err fuel n bytes before e k = rw (k, parse_headers_from) refl

-- With enough fuel, headers are read as what they say.
parse_headers_from-reads :
    (fuel : ℕ) (hs : List RawHeader) (before texts : List (Text × Text))
    → length (written_all hs) ≤ fuel
    → meaning_all hs ≡ some texts
    → parse_headers_from fuel (written_all hs) before ≡ ok (before ++ texts)
unfolding parse_headers_from
parse_headers_from-reads fuel [] before texts le says =
    ap ok (sym (append-nil before)) ∙ ap (λ o. ok (before ++ unwrap_or [] o)) says
parse_headers_from-reads zero (h ∷ hs) before texts le says = absurd (ground (arith, le))
parse_headers_from-reads (suc fuel) (h ∷ hs) before texts le says =
    let (ts, (first, h1)) = some-bind (meaning h) _ texts says in
    let (more, (others, joined)) = some-bind (meaning_all hs) _ texts h1 in
    let shorter : length (written_all hs) ≤ fuel =
      omega (arith, length-written h (written_all hs), le) in
    step-ok fuel _ _ before ts (written_all hs) (round-reads h (written_all hs) ts first)
    ∙ parse_headers_from-reads fuel hs (before ++ ts) more shorter others
    ∙ ap ok (append_assoc before ts more)
    ∙ ap (λ o. ok (before ++ unwrap_or [] o)) joined

-- Whatever is read is a sequence of well-formed headers.
parse_headers_from-ok :
    (fuel : ℕ) (bytes : List ℕ) (before texts : List (Text × Text))
    → length bytes ≤ fuel
    → parse_headers_from fuel bytes before ≡ ok texts
    → (more : List (Text × Text)) × ((before ++ more ≡ texts) × IsHeaders bytes more)
unfolding parse_headers_from
parse_headers_from-ok fuel [] before texts le h =
    ([], (append-nil before ∙ ok-inj h, ([], (refl, refl))))
parse_headers_from-ok zero (n ∷ bytes) before texts le h = absurd (ground (arith, le))
parse_headers_from-ok (suc fuel) (n ∷ bytes) before texts le h =
    elim (Result-cases (header_round n bytes)) [
      | inl (e, k) ↦
          let failed : err e ≡ ok texts = sym (step-err fuel n bytes before e k) ∙ h in absurd cc
      | inr ((kept, rest), k) ↦
          let (raw, (whole, says)) = round-ok n bytes kept rest k in
          let h1 : parse_headers_from fuel rest (before ++ kept) ≡ ok texts =
            sym (step-ok fuel n bytes before kept rest k) ∙ h in
          let shorter : length rest ≤ fuel =
            omega (arith, length-written raw rest, ap length whole, le) in
          let (more, (joined, (hs, (bytes_are, they_say)))) =
            parse_headers_from-ok fuel rest (before ++ kept) texts shorter h1 in
          (
            kept ++ more,
            (
              sym (append_assoc before kept more) ∙ joined,
              (raw ∷ hs, (ap (written raw) bytes_are ∙ whole, rw (says, they_say) refl)),
            ),
          )
    ]

err-inj :
    {d e : UpstreamStreamError}
    → ◌≡◌ {A = Result (List (Text × Text)) UpstreamStreamError} (err d) (err e)
    → d ≡ e
err-inj {d = d} h = ap (λ r. elim r [ ok a ↦ d | err x ↦ x ]) h

parse_headers_from-err :
    (fuel : ℕ) (bytes : List ℕ) (before : List (Text × Text)) (e : UpstreamStreamError)
    → parse_headers_from fuel bytes before ≡ err e
    → e ≡ malformed_header
unfolding parse_headers_from
parse_headers_from-err fuel [] before e h = absurd cc
parse_headers_from-err zero (n ∷ bytes) before e h = absurd cc
parse_headers_from-err (suc fuel) (n ∷ bytes) before e h =
    elim (Result-cases (header_round n bytes)) [
      | inl (e', k) ↦
          let same : err e' ≡ err e = sym (step-err fuel n bytes before e' k) ∙ h in
          header_round-err n bytes e (k ∙ ap (λ f. err f) (err-inj same))
      | inr ((kept, rest), k) ↦
          parse_headers_from-err fuel rest (before ++ kept) e
            (sym (step-ok fuel n bytes before kept rest k) ∙ h)
    ]

-- A block of headers is read as the texts that its headers say where it is a sequence of
-- well-formed headers, none left out and none cut short; and every other block is refused as
-- malformed.
pub parse_headers-Reads : (bytes : List ℕ) → Reads bytes (parse_headers bytes)
unfolding parse_headers
parse_headers-Reads bytes = answer (parse_headers_from (length bytes) bytes []) refl
  where
    answer :
        (r : Result (List (Text × Text)) UpstreamStreamError)
        → parse_headers_from (length bytes) bytes [] ≡ r
        → Reads bytes r
    answer (ok texts) h =
        let (more, (joined, there)) =
          parse_headers_from-ok (length bytes) bytes [] texts (omega arith) h in
        subst (IsHeaders bytes) joined there
    answer (err e) h = (parse_headers_from-err (length bytes) bytes [] e h, refused)
      where
        refused : ¬ ((texts : List (Text × Text)) × IsHeaders bytes texts)
        refused (texts, (hs, (bytes_are, they_say))) =
            let read : parse_headers_from (length bytes) (written_all hs) [] ≡ ok texts =
              parse_headers_from-reads (length bytes) hs [] texts
                (omega (arith, ap length bytes_are)) they_say in
            let read' : parse_headers_from (length bytes) bytes [] ≡ ok texts =
              ap (λ b. parse_headers_from (length bytes) b []) (sym bytes_are) ∙ read in
            let both : err e ≡ ok texts = sym h ∙ read' in absurd cc
