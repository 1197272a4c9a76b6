-- ===== src/Filters/Csv.antt =====
-- `split_csv` and `join_strings` against a description of the pieces between commas.
use bluez_obex_native.Common.{
  ℕ, zero, suc, ◌+◌, ◌-◌, ◌≤◌, ◌<◌, ◌≡◌, ◌≢◌, refl, sym, ◌∙◌, ap, true, false, none, some, List, [],
  ◌∷◌, ◌++◌, append-nil, append_assoc, arith, inl, inr, All, length, is_empty, take, drop, leb, ltb,
  eqb, Bool-cases, Option-cases, if◌then◌else◌,
}
use bluez_obex_native.Common.Strings.{Str}
use bluez_obex_native.Filters.{
  comma, index_of, push_piece, split_csv_loop, split_csv, join_rest, join_strings,
}

-- The pieces between the occurrences of `c`, the empty ones too.
cons_piece : ℕ → List Str → List Str
cons_piece b [] = (b ∷ []) ∷ []
cons_piece b (p ∷ ps) = (b ∷ p) ∷ ps

unfoldable pub pieces : ℕ → Str → List Str
unfolding cons_piece
pieces c [] = [] ∷ []
pieces c (b ∷ s) = if eqb b c then [] ∷ pieces c s else cons_piece b (pieces c s)

unfoldable pub drop_empty : List Str → List Str
drop_empty [] = []
drop_empty (p ∷ ps) = if is_empty p then drop_empty ps else p ∷ drop_empty ps

pieces-none : (c : ℕ) (s : Str) → index_of c s ≡ none → pieces c s ≡ s ∷ []
unfolding index_of pieces
pieces-none c [] h = refl
pieces-none c (b ∷ s) h = ground (arith, pieces-none c s)

pieces-some :
    (c : ℕ) (s : Str) (i : ℕ)
    → index_of c s ≡ some i
    → (pieces c s ≡ take i s ∷ pieces c (drop (suc i) s)) × (i < length s)
unfolding index_of pieces
pieces-some c [] i h = cc
pieces-some c (b ∷ s) zero h = ground arith
pieces-some c (b ∷ s) (suc i) h = ground (arith, pieces-some c s i)

take_all : (s : Str) → take (length s) s ≡ s
take_all [] = refl
take_all (b ∷ s) = ap (λ (t : Str). b ∷ t) (take_all s)

length-drop : (n : ℕ) (s : Str) → length (drop n s) ≡ length s - n
length-drop zero s = omega arith
length-drop (suc n) [] = omega arith
length-drop (suc n) (b ∷ s) = omega (arith, length-drop n s)

drop_nil : (n : ℕ) → drop {A = ℕ} n [] ≡ []
drop_nil zero = refl
drop_nil (suc n) = refl

drop-drop : (n m : ℕ) (s : Str) → drop m (drop n s) ≡ drop (n + m) s
drop-drop zero m s = ground arith
drop-drop (suc n) m [] = drop_nil m ∙ sym (drop_nil (suc n + m))
drop-drop (suc n) m (b ∷ s) =
    let e : suc n + m ≡ suc (n + m) = omega arith in rw e (drop-drop n m s)

take_empty : (n : ℕ) (s : Str) → n ≤ length s → is_empty (take n s) ≡ leb n 0
take_empty zero s h = ground arith
take_empty (suc n) [] h = absurd (omega arith)
take_empty (suc n) (b ∷ s) h = ground arith

-- One piece: pushed unless it is empty.
push_piece_lem :
    (value : Str) (start n : ℕ) (result : List Str) (ps : List Str)
    → n ≤ length (drop start value)
    → push_piece value start (start + n) result ++ drop_empty ps
      ≡ result ++ drop_empty (take n (drop start value) ∷ ps)
unfolding push_piece drop_empty
push_piece_lem value start zero result ps h = ground arith
push_piece_lem value start (suc n) result ps h =
    let e : start + suc n - start ≡ suc n = omega arith in
    let l : ltb start (start + suc n) ≡ true = ground arith in
    let ne : leb (suc n) 0 ≡ false = ground arith in
    rw (l, e, take_empty (suc n) (drop start value) h, ne) (append_assoc result _ (drop_empty ps))

drop_empty-nil : drop_empty [] ≡ []
unfolding drop_empty
drop_empty-nil = refl

push_last :
    (value : Str) (start : ℕ) (result : List Str)
    → start ≤ length value
    → push_piece value start (length value) result ≡ result ++ drop_empty (drop start value ∷ [])
push_last value start result h =
    let d : Str = drop start value in
    let end : start + length d ≡ length value = omega (arith, length-drop start value) in
    rw (end, take_all d, drop_empty-nil, append-nil) at
      (push_piece_lem value start (length d) result [] (omega arith))

step_last :
    (fuel : ℕ) (value : Str) (start : ℕ) (result : List Str)
    → start ≤ length value
    → index_of comma (drop start value) ≡ none
    → split_csv_loop (suc fuel) value start result
      ≡ some (push_piece value start (length value) result)
unfolding split_csv_loop
step_last fuel value start result h e = ground arith

step_more :
    (fuel : ℕ) (value : Str) (start : ℕ) (result : List Str) (i : ℕ)
    → start ≤ length value
    → index_of comma (drop start value) ≡ some i
    → split_csv_loop (suc fuel) value start result
      ≡ split_csv_loop fuel value (start + i + 1) (push_piece value start (start + i) result)
unfolding split_csv_loop
step_more fuel value start result i h e = ground arith

-- The loop from `start` on: `length value - start` rounds are enough.
pub split_csv_loop_lem :
    (fuel : ℕ) (value : Str) (start : ℕ) (result : List Str)
    → start ≤ length value
    → length value - start < fuel
    → split_csv_loop fuel value start result
      ≡ some (result ++ drop_empty (pieces comma (drop start value)))
split_csv_loop_lem zero value start result h lt = absurd (omega arith)
split_csv_loop_lem (suc fuel) value start result h lt =
    elim (Option-cases (index_of comma (drop start value))) [
      | inl e ↦
          rw (step_last fuel value start result h e, pieces-none comma _ e)
            (ap some (push_last value start result h))
      | inr (i, e) ↦
          let (cut, inside) = pieces-some comma (drop start value) i e in
          let room : start + i + 1 ≤ length value = omega (arith, length-drop start value) in
          rw
            (
              step_more fuel value start result i h e,
              split_csv_loop_lem fuel value (start + i + 1)
                  (push_piece value start (start + i) result) room (omega arith),
              cut,
              drop-drop start (suc i) value,
            )
            (let at : start + suc i ≡ start + i + 1 = omega arith in
              rw at (ap some (push_piece_lem value start i result _ (omega arith))))
    ]

-- `split_csv` returns, and what it returns are the pieces between the commas, in order, without
-- the empty ones.
pub split_csv-pieces : (value : Str) → split_csv value ≡ some (drop_empty (pieces comma value))
unfolding split_csv
split_csv-pieces value =
    split_csv_loop_lem (length value + 2) value 0 [] (omega arith) (omega arith)

-- The texts that a list can hold and keep through a join: not empty, and with no comma.
abbrev pub IsItem : Str → Type 0
IsItem s = (s ≢ []) × All (λ b. b ≢ comma) s

pieces_item :
    (s rest : Str)
    → All (λ b. b ≢ comma) s
    → pieces comma (s ++ comma ∷ rest) ≡ s ∷ pieces comma rest
unfolding pieces
pieces_item [] rest h = ground arith
pieces_item (b ∷ s) rest h =
    let e : eqb b comma ≡ false = ground (arith, h.0) in rw (e, pieces_item s rest h.1)

pieces_last : (s : Str) → All (λ b. b ≢ comma) s → pieces comma s ≡ s ∷ []
unfolding pieces
pieces_last [] h = refl
pieces_last (b ∷ s) h =
    let e : eqb b comma ≡ false = ground (arith, h.0) in rw (e, pieces_last s h.1)

pieces-join :
    (s : Str) (ss : List Str) → All IsItem (s ∷ ss) → pieces comma (s ++ join_rest ss) ≡ s ∷ ss
unfolding join_rest
pieces-join s [] h = rw (append-nil s) (pieces_last s h.0.1)
pieces-join s (t ∷ ss) h = rw (pieces_item s _ h.0.1, pieces-join t ss h.1)

drop_empty-items : (ss : List Str) → All IsItem ss → drop_empty ss ≡ ss
unfolding drop_empty
drop_empty-items [] h = refl
drop_empty-items ([] ∷ ss) h = absurd (h.0.0 refl)
drop_empty-items ((b ∷ s) ∷ ss) h = ap (λ (t : List Str). (b ∷ s) ∷ t) (drop_empty-items ss h.1)

-- A list of texts that are not empty and hold no comma comes back from `join_strings` by
-- `split_csv`.
pub split_csv-join_strings : (ss : List Str) → All IsItem ss → split_csv (join_strings ss) ≡ some ss
unfolding join_strings
split_csv-join_strings [] h = rw split_csv-pieces (unfold pieces drop_empty in refl)
split_csv-join_strings (s ∷ ss) h =
    rw (split_csv-pieces, pieces-join s ss h, drop_empty-items (s ∷ ss) h)

abbrev HasNoComma : Str → Type 0
HasNoComma s = All (λ b. b ≢ comma) s

cons_piece-HasNoComma :
    (b : ℕ) (ps : List Str) → b ≢ comma → All HasNoComma ps → All HasNoComma (cons_piece b ps)
unfolding cons_piece
cons_piece-HasNoComma b [] ne h = ((ne, tt), tt)
cons_piece-HasNoComma b (p ∷ ps) ne h = ((ne, h.0), h.1)

pieces-HasNoComma : (s : Str) → All HasNoComma (pieces comma s)
unfolding pieces
pieces-HasNoComma [] = (tt, tt)
pieces-HasNoComma (b ∷ s) = elim (Bool-cases (eqb b comma)) [
  | inl e ↦ rw e (tt, pieces-HasNoComma s)
  | inr e ↦ rw e (cons_piece-HasNoComma b _ (ground arith) (pieces-HasNoComma s))
]

drop_empty-IsItem : (ps : List Str) → All HasNoComma ps → All IsItem (drop_empty ps)
unfolding drop_empty
drop_empty-IsItem [] h = tt
drop_empty-IsItem ([] ∷ ps) h = drop_empty-IsItem ps h.1
drop_empty-IsItem ((b ∷ p) ∷ ps) h = ((λ e. cc, h.0), drop_empty-IsItem ps h.1)

-- No text in the result of `split_csv` is empty or holds a comma, and a join of the result is
-- split into the same texts.
pub split_csv-IsItem :
    (value : Str) (ss : List Str)
    → split_csv value ≡ some ss
    → All IsItem ss × (split_csv (join_strings ss) ≡ some ss)
split_csv-IsItem value ss h =
    let same : drop_empty (pieces comma value) ≡ ss = cc (split_csv-pieces value) in
    let items : All IsItem ss =
      rw same at (drop_empty-IsItem (pieces comma value) (pieces-HasNoComma value)) in
    (items, split_csv-join_strings ss items)
