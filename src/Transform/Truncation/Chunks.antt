-- ===== src/Transform/Truncation/Chunks.antt =====
-- The marker filter of src/transform/truncation.rs over a stream of chunks: where the stream is
-- cut makes no difference, and little is held back.
use kiro_gateway.Common.{
  ℕ, zero, suc, ◌-◌, ◌≤◌, ◌<◌, ◌≡◌, refl, sym, ap, ◌∙◌, inl, inr, Bool, true, false, not, List, [],
  ◌∷◌, ◌++◌, Option, none, some, length, all, leb, Bool-cases, arith, append-nil, append_assoc,
  ◌||◌,
}
use kiro_gateway.Common.Text.{Text, starts_with, text_eq, text_eq_sound}
use kiro_gateway.Transform.Truncation.{
  kiro_markers, find_marker, is_partial, XmlLeakFilter, drain, push, finish, new,
}
use kiro_gateway.Transform.Truncation.Scan.{
  prepend, scan, drain_loop-eq-scan, scan-no_marker, scan-pending, scan-marker_skip,
  find_marker-length,
}

starts_with-append_left : (s t m : Text) → starts_with s m ≡ true → starts_with (s ++ t) m ≡ true
unfolding starts_with
starts_with-append_left s t [] h = refl
starts_with-append_left [] t (d ∷ m) h = cc
starts_with-append_left (c ∷ s) t (d ∷ m) h = ground (arith, starts_with-append_left s t m)

starts_with-append_split :
    (s t m : Text) → starts_with (s ++ t) m ≡ true → (starts_with s m || starts_with m s) ≡ true
unfolding starts_with
starts_with-append_split s t [] h = refl
starts_with-append_split [] t (d ∷ m) h = refl
starts_with-append_split (c ∷ s) t (d ∷ m) h = ground (arith, starts_with-append_split s t m)

starts_with-append_right : (m s t : Text) → starts_with m (s ++ t) ≡ true → starts_with m s ≡ true
unfolding starts_with
starts_with-append_right m [] t h = refl
starts_with-append_right [] (c ∷ s) t h = cc
starts_with-append_right (d ∷ m) (c ∷ s) t h = ground (arith, starts_with-append_right m s t)

-- Two prefixes of one text are comparable.
starts_with_both :
    (s m n : Text)
    → starts_with s m ≡ true
    → starts_with s n ≡ true
    → (starts_with m n || starts_with n m) ≡ true
unfolding starts_with
starts_with_both s m [] h k = refl
starts_with_both s [] (e ∷ n) h k = refl
starts_with_both [] (d ∷ m) (e ∷ n) h k = cc
starts_with_both (c ∷ s) (d ∷ m) (e ∷ n) h k = ground (arith, starts_with_both s m n)

-- Neither text is a proper prefix of the other.
abbrev apart : Text → Text → Bool
apart m n = text_eq m n || not (starts_with m n || starts_with n m)

find_marker-starts_with :
    (ms : List Text) (s m : Text) → find_marker ms s ≡ some m → starts_with s m ≡ true
unfolding find_marker
find_marker-starts_with [] s m h = cc
find_marker-starts_with (n ∷ ms) s m h = ground (arith, find_marker-starts_with ms s m)

find_marker-all :
    (P : Text → Bool) (ms : List Text) (s m : Text)
    → find_marker ms s ≡ some m
    → all P ms ≡ true
    → P m ≡ true
unfolding find_marker
find_marker-all P [] s m h k = cc
find_marker-all P (n ∷ ms) s m h k = ground (arith, find_marker-all P ms s m)

find_marker-append_apart :
    (ms : List Text) (s t m : Text)
    → find_marker ms s ≡ some m
    → all (apart m) ms ≡ true
    → find_marker ms (s ++ t) ≡ some m
unfolding find_marker
find_marker-append_apart [] s t m h k = cc
find_marker-append_apart (n ∷ ms) s t m h k = ground (
  arith,
  find_marker-append_apart ms s t m,
  starts_with-append_left s t n,
  starts_with-append_left s t m,
  find_marker-starts_with ms s m,
  starts_with_both (s ++ t) m n,
  text_eq_sound m n,
)

markers-apart : all (λ m. all (apart m) kiro_markers) kiro_markers ≡ true
unfolding text_eq starts_with
markers-apart = refl

-- A marker at the front is found whatever follows.
find_marker-append :
    (s t m : Text)
    → find_marker kiro_markers s ≡ some m
    → find_marker kiro_markers (s ++ t) ≡ some m
find_marker-append s t m h =
    find_marker-append_apart kiro_markers s t m h
      (find_marker-all (λ n. all (apart n) kiro_markers) kiro_markers s m h markers-apart)

find_marker-append_none :
    (ms : List Text) (s t : Text)
    → find_marker ms s ≡ none
    → is_partial ms s ≡ false
    → find_marker ms (s ++ t) ≡ none
unfolding find_marker is_partial
find_marker-append_none [] s t h k = refl
find_marker-append_none (n ∷ ms) s t h k =
    ground (arith, find_marker-append_none ms s t, starts_with-append_split s t n)

is_partial-append :
    (ms : List Text) (s t : Text) → is_partial ms s ≡ false → is_partial ms (s ++ t) ≡ false
unfolding is_partial
is_partial-append [] s t h = refl
is_partial-append (n ∷ ms) s t h =
    ground (arith, is_partial-append ms s t, starts_with-append_right n s t)

scan-suc : (fin : Bool) (k c : ℕ) (s : Text) → scan fin (suc k) (c ∷ s) ≡ scan fin k s
unfolding scan
scan-suc fin k c s = refl

scan_merge :
    (fin : Bool) (k : ℕ) (a b : Text)
    → k ≤ length a
    → scan fin k (a ++ b) ≡ prepend (scan false k a).0 (scan fin 0 ((scan false k a).1 ++ b))
scan_merge fin zero [] b h = unfold scan in refl
scan_merge fin (suc k) [] b h = absurd (omega arith)
scan_merge fin (suc k) (c ∷ a) b h =
    rw (scan-suc fin k c (a ++ b), scan-suc false k c a) (scan_merge fin k a b (omega arith))
scan_merge fin zero (c ∷ a) b h =
    go (find_marker kiro_markers (c ∷ a)) refl (λ n. scan_merge fin n a b)
  where
    go :
        (o : Option Text)
        → find_marker kiro_markers (c ∷ a) ≡ o
        → ((n : ℕ)
            → n ≤ length a
            → scan fin n (a ++ b)
              ≡ prepend (scan false n a).0 (scan fin 0 ((scan false n a).1 ++ b)))
        → scan fin 0 (c ∷ a ++ b)
          ≡ prepend (scan false 0 (c ∷ a)).0 (scan fin 0 ((scan false 0 (c ∷ a)).1 ++ b))
    go (some m) e ih =
        let bound = find_marker-length kiro_markers (c ∷ a) m e refl in
        rw
          (
            scan-marker_skip fin c (a ++ b) m (find_marker-append (c ∷ a) b m e),
            scan-marker_skip false c a m e,
          )
          (ih (length m - 1) (omega (arith, bound)))
    go none e ih = elim (Bool-cases (is_partial kiro_markers (c ∷ a))) [
      | inl k ↦ rw (scan-pending c a e k) refl
      | inr k ↦
          rw
            (
              scan-no_marker fin c (a ++ b) (find_marker-append_none kiro_markers (c ∷ a) b e k)
                  (rw (is_partial-append kiro_markers (c ∷ a) b k) (ground arith)),
              scan-no_marker false c a e k,
            )
            (ap (prepend (c ∷ [])) (ih 0 (omega arith)))
    ]

-- A final scan keeps nothing back.
scan_final : (k : ℕ) (s : Text) → (scan true k s).1 ≡ []
unfolding scan
scan_final k [] = refl
scan_final (suc k) (c ∷ s) = scan_final k s
scan_final zero (c ∷ s) = go (find_marker kiro_markers (c ∷ s)) refl (λ k. scan_final k s)
  where
    go :
        (o : Option Text)
        → find_marker kiro_markers (c ∷ s) ≡ o
        → ((k : ℕ) → (scan true k s).1 ≡ [])
        → (scan true 0 (c ∷ s)).1 ≡ []
    go (some m) e ih = rw (e, scan) (ih (length m - 1))
    go none e ih = rw (e, scan) (ih 0)

-- The specification of the filter on a whole text: left to right, delete each marker.
unfoldable pub strip_markers : Text → Text
unfolding scan
strip_markers s = (scan true 0 s).0

-- Feeding chunks one after another, and flushing at the end.
unfoldable pub stream : List Text → XmlLeakFilter → Text
stream [] f = (finish f).0
stream (chunk ∷ chunks) f = let (o, f') = push chunk f in o ++ stream chunks f'

abbrev pub concat : List Text → Text
concat [] = []
concat (s ∷ ss) = s ++ concat ss

drain-eq-scan :
    (fin : Bool) (p : Text)
    → drain fin (record { pending = p }) ≡ ((scan fin 0 p).0, record { pending = (scan fin 0 p).1 })
unfolding drain
drain-eq-scan fin p = rw (drain_loop-eq-scan fin (length p) [] p (omega arith)) refl

stream-eq-scan :
    (chunks : List Text) (p : Text)
    → stream chunks (record { pending = p }) ≡ (scan true 0 (p ++ concat chunks)).0
unfolding stream push finish
stream-eq-scan [] p = ap (λ r. r.0) (drain-eq-scan true p) ∙ rw (append-nil p) refl
stream-eq-scan (chunk ∷ chunks) p =
    ap (λ r. r.0 ++ stream chunks r.1) (drain-eq-scan false (p ++ chunk))
    ∙ ap (λ r. (scan false 0 (p ++ chunk)).0 ++ r)
        (stream-eq-scan chunks (scan false 0 (p ++ chunk)).1)
    ∙ ap (λ r. r.0) (sym (scan_merge true 0 (p ++ chunk) (concat chunks) (omega arith)))
    ∙ ap (λ s. (scan true 0 s).0) (append_assoc p chunk (concat chunks))

-- However a text is cut into chunks, the pieces that the filter writes and the flush at the end
-- make up the whole text with its markers deleted from left to right: no other character is lost,
-- added or moved, and a marker that is cut across chunks is still deleted.
pub stream-eq-strip : (chunks : List Text) → stream chunks new ≡ strip_markers (concat chunks)
unfolding strip_markers
stream-eq-strip chunks = stream-eq-scan chunks []

starts_with-short :
    (n p : Text) → starts_with n p ≡ true → starts_with p n ≡ false → length p < length n
unfolding starts_with
starts_with-short [] [] h k = cc
starts_with-short (d ∷ n) [] h k = omega arith
starts_with-short [] (c ∷ p) h k = cc
starts_with-short (d ∷ n) (c ∷ p) h k = ground (arith, starts_with-short n p)

is_partial-length :
    (ms : List Text) (bound : ℕ) (p : Text)
    → all (λ m. leb (length m) bound) ms ≡ true
    → is_partial ms p ≡ true
    → find_marker ms p ≡ none
    → length p < bound
unfolding is_partial find_marker
is_partial-length [] bound p h k e = cc
is_partial-length (n ∷ ms) bound p h k e =
    ground (arith, is_partial-length ms bound p, starts_with-short n p)

scan_held : (k : ℕ) (s : Text) → length (scan false k s).1 ≤ 13
unfolding scan
scan_held k [] = omega arith
scan_held (suc k) (c ∷ s) = scan_held k s
scan_held zero (c ∷ s) = go (find_marker kiro_markers (c ∷ s)) refl (λ k. scan_held k s)
  where
    go :
        (o : Option Text)
        → find_marker kiro_markers (c ∷ s) ≡ o
        → ((k : ℕ) → length (scan false k s).1 ≤ 13)
        → length (scan false 0 (c ∷ s)).1 ≤ 13
    go (some m) e ih = rw (e, scan) (ih (length m - 1))
    go none e ih = elim (Bool-cases (is_partial kiro_markers (c ∷ s))) [
      | inl k ↦ rw (e, k, scan) (omega (arith, is_partial-length kiro_markers 14 (c ∷ s) refl k e))
      | inr k ↦ rw (e, k, scan) (ih 0)
    ]

-- After any chunk, whatever was pending before, at most thirteen characters are held back, one
-- less than the longest marker has; after the flush nothing is held back.
pub push-finish-held :
    (input : Text) (f : XmlLeakFilter)
    → (length (push input f).1.pending ≤ 13) × ((finish f).1.pending ≡ [])
unfolding push finish
push-finish-held input f = (
  rw (drain-eq-scan false (f.pending ++ input)) (scan_held 0 (f.pending ++ input)),
  ap (λ r. r.1.pending) (drain-eq-scan true f.pending) ∙ scan_final 0 f.pending,
)
