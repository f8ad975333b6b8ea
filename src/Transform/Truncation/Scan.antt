-- ===== src/Transform/Truncation/Scan.antt =====
-- The marker filter of src/transform/truncation.rs against a scan that looks at one character at
-- a time.
use kiro_gateway.Common.{
  ℕ, zero, suc, ◌-◌, ◌≤◌, ◌<◌, ◌≡◌, refl, inl, inr, Bool, true, false, ◌&&◌, not, List, [], ◌∷◌,
  ◌++◌, Option, none, some, length, take, drop, all, ◌==◌, if◌then◌else◌, Bool-cases, arith,
  append-nil, append_assoc, length-drop,
}
use kiro_gateway.Common.Text.{Text, starts_with}
use kiro_gateway.Transform.Truncation.{
  kiro_markers, find_marker, is_partial, find_lt, Round, plain_round, drain_round, drain_loop,
}

-- What one text writes in front of a result.
abbrev pub prepend : Text → Text × Text → Text × Text
prepend o r = (o ++ r.0, r.1)

-- The specification: marker characters are skipped, a possible beginning of a marker stays
-- pending unless the text is final, every other character is written.
unfoldable pub scan : Bool → ℕ → Text → Text × Text
scan final_chunk skip [] = ([], [])
scan final_chunk (suc skip) (c ∷ s) = scan final_chunk skip s
scan final_chunk zero (c ∷ s) =
    let plain = prepend (c ∷ []) (scan final_chunk zero s) in
    elim (find_marker kiro_markers (c ∷ s)) [
      | some m ↦ scan final_chunk (length m - 1) s
      | none ↦ if not final_chunk && is_partial kiro_markers (c ∷ s) then ([], c ∷ s) else plain
    ]

pub scan-skip :
    (fin : Bool) (k : ℕ) (s : Text) → k ≤ length s → scan fin k s ≡ scan fin 0 (drop k s)
unfolding scan
scan-skip fin zero s h = refl
scan-skip fin (suc k) [] h = absurd (omega arith)
scan-skip fin (suc k) (c ∷ s) h = scan-skip fin k s (omega arith)

-- Every marker begins with `<`.
abbrev pub starts_lt : Text → Bool
starts_lt [] = false
starts_lt (c ∷ s) = c == b'<'

find_marker-ne_lt :
    (ms : List Text) (c : ℕ) (s : Text)
    → all starts_lt ms ≡ true
    → (c == b'<') ≡ false
    → find_marker ms (c ∷ s) ≡ none
unfolding find_marker starts_with
find_marker-ne_lt [] c s h k = refl
find_marker-ne_lt ([] ∷ ms) c s h k = cc
find_marker-ne_lt ((d ∷ m) ∷ ms) c s h k = ground (arith, find_marker-ne_lt ms c s)

is_partial-ne_lt :
    (ms : List Text) (c : ℕ) (s : Text)
    → all starts_lt ms ≡ true
    → (c == b'<') ≡ false
    → is_partial ms (c ∷ s) ≡ false
unfolding is_partial starts_with
is_partial-ne_lt [] c s h k = refl
is_partial-ne_lt ([] ∷ ms) c s h k = cc
is_partial-ne_lt ((d ∷ m) ∷ ms) c s h k = ground (arith, is_partial-ne_lt ms c s)

-- A character other than `<` is written.
pub scan-ne_lt :
    (fin : Bool) (c : ℕ) (s : Text)
    → (c == b'<') ≡ false
    → scan fin 0 (c ∷ s) ≡ prepend (c ∷ []) (scan fin 0 s)
unfolding scan
scan-ne_lt fin c s k =
    ground
      (arith, find_marker-ne_lt kiro_markers c s refl k, is_partial-ne_lt kiro_markers c s refl k)

scan-find_lt-none : (fin : Bool) (s : Text) → find_lt s ≡ none → scan fin 0 s ≡ (s, [])
unfolding find_lt
scan-find_lt-none fin [] h = unfold scan in refl
scan-find_lt-none fin (c ∷ s) h = ground (arith, scan-ne_lt fin c s, scan-find_lt-none fin s)

scan-find_lt-some :
    (fin : Bool) (s : Text) (k : ℕ)
    → find_lt s ≡ some k
    → scan fin 0 s ≡ prepend (take k s) (scan fin 0 (drop k s))
unfolding find_lt
scan-find_lt-some fin [] k h = cc
scan-find_lt-some fin (c ∷ s) zero h = refl
scan-find_lt-some fin (c ∷ s) (suc k) h =
    ground (arith, scan-ne_lt fin c s, scan-find_lt-some fin s k)

pub starts_with-length : (s m : Text) → starts_with s m ≡ true → length m ≤ length s
unfolding starts_with
starts_with-length s [] h = omega arith
starts_with-length [] (d ∷ m) h = cc
starts_with-length (c ∷ s) (d ∷ m) h = ground (arith, starts_with-length s m)

StartsLt-length : (m : Text) → starts_lt m ≡ true → 0 < length m
StartsLt-length [] h = cc
StartsLt-length (c ∷ m) h = omega arith

pub find_marker-length :
    (ms : List Text) (s m : Text)
    → find_marker ms s ≡ some m
    → all starts_lt ms ≡ true
    → (0 < length m) × (length m ≤ length s)
unfolding find_marker
find_marker-length [] s m h k = cc
find_marker-length (n ∷ ms) s m h k =
    ground (arith, find_marker-length ms s m, starts_with-length s n, StartsLt-length n)

-- What a round must do for the loop to compute the scan.
abbrev Follows : Bool → Text → Round → Type 0
Follows fin s r =
    if r.again
    then ((length r.rest < length s) × (scan fin 0 s ≡ prepend r.output (scan fin 0 r.rest)))
    else ((0 ≤ 0) × (scan fin 0 s ≡ (r.output, r.rest)))

find_lt-length : (s : Text) (k : ℕ) → find_lt s ≡ some k → k < length s
unfolding find_lt
find_lt-length [] k h = cc
find_lt-length (c ∷ s) zero h = omega arith
find_lt-length (c ∷ s) (suc k) h = ground (arith, find_lt-length s k)

pub scan-no_marker :
    (fin : Bool) (c : ℕ) (s : Text)
    → find_marker kiro_markers (c ∷ s) ≡ none
    → (not fin && is_partial kiro_markers (c ∷ s)) ≡ false
    → scan fin 0 (c ∷ s) ≡ prepend (c ∷ []) (scan fin 0 s)
unfolding scan
scan-no_marker fin c s h k = ground arith

pred_suc : (n : ℕ) → suc n - 1 ≡ n
pred_suc n = omega arith

scan-marker :
    (fin : Bool) (c : ℕ) (s m : Text)
    → find_marker kiro_markers (c ∷ s) ≡ some m
    → scan fin 0 (c ∷ s) ≡ scan fin 0 (drop (length m) (c ∷ s))
unfolding scan
scan-marker fin c s [] h = absurd (omega (arith, find_marker-length kiro_markers (c ∷ s) [] h refl))
scan-marker fin c s (d ∷ m) h = ground (
  arith,
  scan-skip fin (length m) s,
  find_marker-length kiro_markers (c ∷ s) (d ∷ m),
  pred_suc (length m),
)

-- The same at the scan's own skip count.
pub scan-marker_skip :
    (fin : Bool) (c : ℕ) (s m : Text)
    → find_marker kiro_markers (c ∷ s) ≡ some m
    → scan fin 0 (c ∷ s) ≡ scan fin (length m - 1) s
unfolding scan
scan-marker_skip fin c s m h = ground arith

find_lt-zero : (c : ℕ) (s : Text) → find_lt (c ∷ s) ≡ some 0 → c ≡ b'<'
unfolding find_lt
find_lt-zero c s h = ground arith

plain_round-Follows :
    (fin : Bool) (c : ℕ) (s : Text)
    → find_marker kiro_markers (c ∷ s) ≡ none
    → (not fin && is_partial kiro_markers (c ∷ s)) ≡ false
    → Follows fin (c ∷ s) (plain_round (c ∷ s))
unfolding plain_round
plain_round-Follows fin c s h k = go (find_lt (c ∷ s)) refl
  where
    go : (o : Option ℕ) → find_lt (c ∷ s) ≡ o → Follows fin (c ∷ s) (plain_round (c ∷ s))
    go none e = rw (e, plain_round) (omega arith, scan-find_lt-none fin (c ∷ s) e)
    go (some zero) e =
        rw (e, plain_round) (omega arith, rw (← find_lt-zero c s e) (scan-no_marker fin c s h k))
    go (some (suc n)) e =
        rw (e, plain_round)
          (omega (arith, length-drop n s), scan-find_lt-some fin (c ∷ s) (suc n) e)

pub scan-pending :
    (c : ℕ) (s : Text)
    → find_marker kiro_markers (c ∷ s) ≡ none
    → is_partial kiro_markers (c ∷ s) ≡ true
    → scan false 0 (c ∷ s) ≡ ([], c ∷ s)
unfolding scan
scan-pending c s h k = ground arith

drain_round-Follows : (fin : Bool) (s : Text) → Follows fin s (drain_round fin s)
unfolding drain_round
drain_round-Follows fin [] = unfold scan in (omega arith, refl)
drain_round-Follows fin (c ∷ s) = go (find_marker kiro_markers (c ∷ s)) refl
  where
    go :
        (o : Option Text)
        → find_marker kiro_markers (c ∷ s) ≡ o
        → Follows fin (c ∷ s) (drain_round fin (c ∷ s))
    go (some m) e =
        let b = find_marker-length kiro_markers (c ∷ s) m e refl in
        rw (e, drain_round)
          (omega (arith, length-drop (length m) (c ∷ s), b), scan-marker fin c s m e)
    go none e = elim (Bool-cases (not fin && is_partial kiro_markers (c ∷ s))) [
      | inl k ↦ rw (e, k, drain_round) (omega arith, ground (arith, scan-pending c s e))
      | inr k ↦ rw (e, k, drain_round) (plain_round-Follows fin c s e k)
    ]

-- The loop of `drain` computes the scan: with fuel for every pending character it does not run out.
pub drain_loop-eq-scan :
    (fin : Bool) (fuel : ℕ) (out s : Text)
    → length s ≤ fuel
    → drain_loop fin fuel out s ≡ prepend out (scan fin 0 s)
unfolding drain_loop
drain_loop-eq-scan fin zero out [] h = unfold scan in cc (append-nil out)
drain_loop-eq-scan fin zero out (c ∷ s) h = absurd (omega arith)
drain_loop-eq-scan fin (suc fuel) out s h = ground (
  arith,
  drain_round-Follows fin s,
  drain_loop-eq-scan fin fuel (out ++ (drain_round fin s).output) (drain_round fin s).rest,
  append_assoc out (drain_round fin s).output (scan fin 0 (drain_round fin s).rest).0,
)
