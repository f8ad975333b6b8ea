-- ===== src/ResponseStore/Sqlite/Sequence.antt =====
-- The sequence numbers of the events that src/response_store/sqlite.rs stores.
use kiro_gateway.Common.{
  ℕ, suc, ◌+◌, ◌-◌, ◌^◌, ◌≤◌, ◌<◌, ◌≡◌, refl, sym, ap, ◌∙◌, Bool, true, false, List, [], ◌∷◌, ◌++◌,
  if◌then◌else◌, arith, length, length-append, append-nil, subst, Bool-cases, inl, inr,
  append_assoc,
}
use Prim.Native.Nat.{max}
use kiro_gateway.Common.Text.{Text, text_eq, text_eq_iff, text_eq_refl}
use kiro_gateway.Common.Json.{Value}
use kiro_gateway.Common.Result.{Result, ok, ◌>>=◌}
use kiro_gateway.Error.{AppError}
use kiro_gateway.ResponseStore.Model.{DateTime, Times, ResponseEvent, EventRow}
use kiro_gateway.ResponseStore.Sqlite.{
  Env, event_row, stored_event, after_sequence, next_sequence, sequence_used, append_loop, rows_of,
}

-- The rows bear the numbers from `n` on, without a gap, in the order of the table.
abbrev pub IsCounting : ℕ → List EventRow → Type 0
IsCounting n [] = Unit
IsCounting n (row ∷ rows) = (row.sequence_number ≡ n) × IsCounting (suc n) rows

-- Every response's events are numbered from 0 without a gap.
abbrev pub IsNumbered : Env → List EventRow → Type 0
IsNumbered env rows = (id : Text) → IsCounting 0 (rows_of env id rows)

module _ (env : Env) where
  pub rows_of-append :
      (id : Text) (xs ys : List EventRow)
      → rows_of env id (xs ++ ys) ≡ rows_of env id xs ++ rows_of env id ys
  unfolding rows_of
  rows_of-append id [] ys = refl
  rows_of-append id (x ∷ xs) ys = ground (arith, rows_of-append id xs ys)

  IsCounting-snoc :
      (n : ℕ) (xs : List EventRow) (row : EventRow)
      → IsCounting n xs
      → row.sequence_number ≡ n + length xs
      → IsCounting n (xs ++ row ∷ [])
  IsCounting-snoc n [] row c e = (omega arith, tt)
  IsCounting-snoc n (x ∷ xs) row (e0, c) e = (e0, IsCounting-snoc (suc n) xs row c (omega arith))

  max_next : List EventRow → ℕ
  max_next [] = 0
  max_next (row ∷ rows) = max (row.sequence_number + 1) (max_next rows)

  next_sequence-rows_of :
      (id : Text) (rows : List EventRow)
      → next_sequence env id rows ≡ max_next (rows_of env id rows)
  unfolding next_sequence rows_of max_next
  next_sequence-rows_of id [] = refl
  next_sequence-rows_of id (row ∷ rows) = ground (arith, next_sequence-rows_of id rows)

  max_next-counting :
      (n : ℕ) (row : EventRow) (rows : List EventRow)
      → IsCounting n (row ∷ rows)
      → max_next (row ∷ rows) ≡ n + suc (length rows)
  unfolding max_next
  max_next-counting n row [] (e, c) = omega arith
  max_next-counting n row (row' ∷ rows) (e, c) =
      omega (arith, max_next-counting (suc n) row' rows c)

  max_next-eq-length : (rows : List EventRow) → IsCounting 0 rows → max_next rows ≡ length rows
  max_next-eq-length [] c = unfold max_next in refl
  max_next-eq-length (row ∷ rows) c = omega (arith, max_next-counting 0 row rows c)

  -- The next number is the count of the events.
  pub next_sequence-eq-length :
      (id : Text) (rows : List EventRow)
      → IsNumbered env rows
      → next_sequence env id rows ≡ length (rows_of env id rows)
  next_sequence-eq-length id rows h =
      next_sequence-rows_of id rows ∙ max_next-eq-length (rows_of env id rows) (h id)

  used-lt-next :
      (id : Text) (m : ℕ) (rows : List EventRow)
      → sequence_used env id m rows ≡ true
      → m < next_sequence env id rows
  unfolding sequence_used next_sequence
  used-lt-next id m [] h = cc
  used-lt-next id m (row ∷ rows) h = ground (arith, used-lt-next id m rows)

  next_sequence-unused :
      (id : Text) (rows : List EventRow)
      → sequence_used env id (next_sequence env id rows) rows ≡ false
  next_sequence-unused id rows =
      elim (Bool-cases (sequence_used env id (next_sequence env id rows) rows)) [
        | inr free ↦ free
        | inl used ↦ absurd (omega (arith, used-lt-next id (next_sequence env id rows) rows used))
      ]

  -- The rows and the reports of a list of events from a number on.
  unfoldable pub appended : Text → Times → ℕ → List (Text × Value) → List EventRow
  appended id now n [] = []
  appended id now n (e ∷ es) = event_row env id n (now.written n) e ∷ appended id now (n + 1) es

  unfoldable pub reported : Text → Times → ℕ → List (Text × Value) → List ResponseEvent
  reported id now n [] = []
  reported id now n (e ∷ es) = stored_event env id n (now.written n) e ∷ reported id now (n + 1) es

  pub rows_of-snoc :
      (j id : Text) (now : DateTime) (n : ℕ) (e : Text × Value) (rows : List EventRow)
      → rows_of env j (rows ++ event_row env id n now e ∷ []) ≡ (
          if text_eq id j
          then rows_of env j rows ++ event_row env id n now e ∷ []
          else rows_of env j rows)
  unfolding rows_of
  rows_of-snoc j id now n e rows =
      rows_of-append j rows (event_row env id n now e ∷ []) ∙ go (text_eq id j)
    where
      go :
          (b : Bool)
          → rows_of env j rows ++ (if b then event_row env id n now e ∷ [] else []) ≡ (
              if b then rows_of env j rows ++ event_row env id n now e ∷ [] else rows_of env j rows)
      go true = refl
      go false = append-nil (rows_of env j rows)

  pub snoc-IsNumbered :
      (id : Text) (now : DateTime) (e : Text × Value) (rows : List EventRow)
      → IsNumbered env rows
      → IsNumbered env (rows ++ event_row env id (length (rows_of env id rows)) now e ∷ [])
  snoc-IsNumbered id now e rows h j =
      let n = length (rows_of env id rows) in
      rw (rows_of-snoc j id now n e rows) (elim (Bool-cases (text_eq id j)) [
        | inl same ↦
            let q : id ≡ j = (text_eq_iff id j).0 same in
            rw same (
              IsCounting-snoc 0 (rows_of env j rows) (event_row env id n now e) (h j)
                (ap (λ k. length (rows_of env k rows)) q ∙ omega arith))
        | inr other ↦ rw other (h j)
      ])

  pub length-snoc :
      (id : Text) (now : DateTime) (n : ℕ) (e : Text × Value) (rows : List EventRow)
      → length (rows_of env id (rows ++ event_row env id n now e ∷ []))
        ≡ length (rows_of env id rows) + 1
  length-snoc id now n e rows =
      ap length (rows_of-snoc id id now n e rows ∙ rw (text_eq_refl id) refl)
      ∙ length-append (rows_of env id rows) (event_row env id n now e ∷ [])

  pub append_loop-appended :
      (id : Text) (now : Times) (n : ℕ) (es : List (Text × Value)) (rows : List EventRow)
      → IsNumbered env rows
      → n ≡ length (rows_of env id rows)
      → n + length es ≤ 2 ^ 63 - 1
      → (append_loop env id now n es rows ≡ ok (rows ++ appended id now n es, reported id now n es))
        × IsNumbered env (rows ++ appended id now n es)
  unfolding append_loop appended reported
  append_loop-appended id now n [] rows h e b =
      (ap (λ r. ok (r, [])) (sym (append-nil rows)), rw (append-nil rows) h)
  append_loop-appended id now n (x ∷ es) rows h e b =
      let rows' = rows ++ event_row env id n (now.written n) x ∷ [] in
      let next : after_sequence env n ≡ n + 1 = omega arith in
      let free : sequence_used env id n rows ≡ false =
        subst (λ m. sequence_used env id m rows ≡ false) (next_sequence-eq-length id rows h ∙ sym e)
          (next_sequence-unused id rows) in
      let numbered : IsNumbered env rows' =
        subst (λ m. IsNumbered env (rows ++ event_row env id m (now.written n) x ∷ [])) (sym e)
          (snoc-IsNumbered id (now.written n) x rows h) in
      let (run, after) =
        append_loop-appended id now (n + 1) es rows' numbered
          (ap (λ m. m + 1) e ∙ sym (length-snoc id (now.written n) n x rows)) (omega arith) in
      let shift =
        append_assoc rows (event_row env id n (now.written n) x ∷ [])
          (appended id now (n + 1) es) in
      (
        rw (free, next)
            (ap
                (λ (result : Result (List EventRow × List ResponseEvent) AppError).
                  (result >>= (λ r. ok (r.0, stored_event env id n (now.written n) x ∷ r.1))))
                run
              ∙ ap
                  (λ all.
                    ok (all, stored_event env id n (now.written n) x ∷ reported id now (n + 1) es))
                  shift),
        subst (IsNumbered env) shift after,
      )
