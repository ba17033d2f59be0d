-- ===== src/Store/Saved.antt =====
-- What has been saved is what is read (src/chen/persistence/run_store.py).
use chen.Common.{
  ℕ, ◌+◌, Text, Bool, false, not, ◌≡◌, refl, inl, inr, Option, none, some, List, [], ◌∷◌, ◌++◌,
  length, keep, find, All, All-append, All-keep, length-append, arith, if◌then◌else◌, ◌==◌,
  codes_key, Bool-cases, Option-cases,
}
use chen.Common.Result.{ok, Result-cases}
use chen.Common.Dict.{Dict, lookup, insert, lookup-insert}
use chen.Store.{
  RunRecord, Row, Json, or_default, to_dict, from_row, replace, save, get, count, IsKeyed,
}

-- How many values an option holds.
unfoldable pub held {ℓ} : {A : Type ℓ} → Option A → ℕ
held none = 0
held (some a) = 1

-- The dictionary from ids to records that the records make.
unfoldable pub by_id :
    {F : Type 0} → List (RunRecord F) → Dict Text (RunRecord F) → Dict Text (RunRecord F)
by_id [] d = d
by_id (r ∷ rs) d = by_id rs (insert r.run_id r d)

length-insert :
    {F : Type 0} (k : Text) (r : RunRecord F) (d : Dict Text (RunRecord F))
    → length (insert k r d) + held (lookup k d) ≡ length d + 1
unfolding insert lookup held
length-insert k r [] = ground arith
length-insert k r ((i, v) ∷ d) = ground (arith, length-insert k r d)

module _ {F : Type 0} {J : Type 0} where
  abbrev pub id_is : Text → Row F J → Bool
  id_is id row = row.run_id == id

  pub from_row-to_dict :
      (j : Json J) (zero_float : F) (r : RunRecord F) → from_row j zero_float (to_dict j r) ≡ ok r
  unfolding from_row to_dict or_default
  from_row-to_dict j zero_float r = ground (arith, j.loads-dumps r.selected_experts)

  find-replace :
      (new : Row F J) (id : Text) (rows : List (Row F J))
      → find (id_is id) (replace new rows)
        ≡ (if new.run_id == id then some new else find (id_is id) rows)
  unfolding replace
  find-replace new id [] = ground arith
  find-replace new id (row ∷ rows) = ground (
    arith,
    find-replace new id rows,
    codes_key.same_iff row.run_id new.run_id,
    codes_key.same_iff row.run_id id,
    codes_key.same_iff new.run_id id,
  )

  -- After a record is saved, `get` returns it for its own id, and for every other id what it
  -- returned before.
  pub get-save :
      (j : Json J) (zero_float : F) (r : RunRecord F) (id : Text) (rows : List (Row F J))
      → get j zero_float id (save j r rows)
        ≡ (if r.run_id == id then ok (some r) else get j zero_float id rows)
  unfolding get save to_dict
  get-save j zero_float r id rows =
      let found = find-replace (to_dict j r) id rows in
      let back = from_row-to_dict j zero_float r in
      elim (Bool-cases (r.run_id == id)) [
        | inl same ↦ ground (arith, found, back, same)
        | inr other ↦ ground (arith, found, other)
      ]

  keep-others :
      (new : Row F J) (rows : List (Row F J))
      → All
          (λ (row : Row F J). (row.run_id == new.run_id) ≡ false)
          (keep (λ (row : Row F J). not (row.run_id == new.run_id)) rows)
  keep-others new [] = tt
  keep-others new (row ∷ rows) = elim (Bool-cases (row.run_id == new.run_id)) [
    | inl same ↦ rw same (keep-others new rows)
    | inr other ↦ rw other (other, keep-others new rows)
  ]

  keep-IsKeyed : (p : Row F J → Bool) (rows : List (Row F J)) → IsKeyed rows → IsKeyed (keep p rows)
  unfolding IsKeyed
  keep-IsKeyed p [] h = h
  keep-IsKeyed p (row ∷ rows) h = elim (Bool-cases (p row)) [
    | inl kept ↦ rw kept (All-keep _ p rows h.0, keep-IsKeyed p rows h.1)
    | inr dropped ↦ rw dropped (keep-IsKeyed p rows h.1)
  ]

  snoc-IsKeyed :
      (new : Row F J) (rows : List (Row F J))
      → IsKeyed rows
      → All (λ (row : Row F J). (row.run_id == new.run_id) ≡ false) rows
      → IsKeyed (rows ++ new ∷ [])
  unfolding IsKeyed
  snoc-IsKeyed new [] h a = (tt, tt)
  snoc-IsKeyed new (row ∷ rows) h a =
      let other : (new.run_id == row.run_id) ≡ false = ground (
        arith,
        a.0,
        codes_key.same_iff row.run_id new.run_id,
        codes_key.same_iff new.run_id row.run_id,
      ) in
      (All-append _ rows (new ∷ []) h.0 (other, tt), snoc-IsKeyed new rows h.1 a.1)

  length-others :
      (id : Text) (rows : List (Row F J))
      → All (λ (row : Row F J). (row.run_id == id) ≡ false) rows
      → (length (keep (λ (row : Row F J). not (row.run_id == id)) rows) ≡ length rows)
        × (find (id_is id) rows ≡ none)
  length-others id [] h = (refl, refl)
  length-others id (row ∷ rows) h = ground (arith, h.0, length-others id rows h.1)

  length-keep :
      (id : Text) (rows : List (Row F J))
      → IsKeyed rows
      → length (keep (λ (row : Row F J). not (row.run_id == id)) rows) + held (find (id_is id) rows)
        ≡ length rows
  unfolding IsKeyed held
  length-keep id [] h = ground arith
  length-keep id (row ∷ rows) h = elim (Bool-cases (row.run_id == id)) [
    | inl same ↦
        let here : row.run_id ≡ id = (codes_key.same_iff row.run_id id).0 same in
        let rest = length-others row.run_id rows h.0 in ground (arith, same, here, rest)
    | inr other ↦ ground (arith, other, length-keep id rows h.1)
  ]

  -- Saving keeps the ids of the rows apart, and leaves one row more if there was none of the
  -- record's id, else as many as before.
  pub save-IsKeyed :
      (j : Json J) (r : RunRecord F) (rows : List (Row F J))
      → IsKeyed rows
      → IsKeyed (save j r rows)
        × (count (save j r rows) + held (find (id_is r.run_id) rows) ≡ count rows + 1)
  unfolding save replace count to_dict
  save-IsKeyed j r rows h =
      let new = to_dict j r in
      let kept = keep (λ (row : Row F J). not (row.run_id == r.run_id)) rows in
      let size = length-keep r.run_id rows h in
      let grown = length-append kept (new ∷ []) in
      (
        snoc-IsKeyed new kept (keep-IsKeyed _ rows h) (keep-others new rows),
        ground (arith, size, grown),
      )

  -- The table after records were saved in this order.
  unfoldable pub save_all : Json J → List (RunRecord F) → List (Row F J) → List (Row F J)
  save_all j [] rows = rows
  save_all j (r ∷ rs) rows = save_all j rs (save j r rows)

  abbrev Simulates : Json J → F → List (Row F J) → Dict Text (RunRecord F) → Type 0
  Simulates j zero_float rows d =
      ((id : Text) → get j zero_float id rows ≡ ok (lookup id d))
      × (count rows ≡ length d)
      × IsKeyed rows

  held-get :
      (j : Json J) (zero_float : F) (id : Text) (rows : List (Row F J))
      (d : Dict Text (RunRecord F))
      → get j zero_float id rows ≡ ok (lookup id d)
      → held (find (id_is id) rows) ≡ held (lookup id d)
  unfolding get held
  held-get j zero_float id rows d h = elim (Option-cases (find (id_is id) rows)) [
    | inl absent ↦ ground (arith, absent, h)
    | inr (row, found) ↦ elim (Result-cases (from_row j zero_float row)) [
      | inl (r, read) ↦ ground (arith, found, read, h)
      | inr (x, failed) ↦ absurd (ground (arith, found, failed, h))
    ]
  ]

  save-Simulates :
      (j : Json J) (zero_float : F) (r : RunRecord F) (rows : List (Row F J))
      (d : Dict Text (RunRecord F))
      → Simulates j zero_float rows d
      → Simulates j zero_float (save j r rows) (insert r.run_id r d)
  save-Simulates j zero_float r rows d s =
      let (keyed, size) = save-IsKeyed j r rows s.2 in
      let same = held-get j zero_float r.run_id rows d (s.0 r.run_id) in
      let wide = length-insert r.run_id r d in
      (
        λ id.
            ground (arith, get-save j zero_float r id rows, lookup-insert r.run_id id r d, s.0 id),
        ground (arith, size, same, wide, s.1),
        keyed,
      )

  save_all-Simulates :
      (j : Json J) (zero_float : F) (rs : List (RunRecord F)) (rows : List (Row F J))
      (d : Dict Text (RunRecord F))
      → Simulates j zero_float rows d
      → Simulates j zero_float (save_all j rs rows) (by_id rs d)
  unfolding save_all by_id
  save_all-Simulates j zero_float [] rows d s = s
  save_all-Simulates j zero_float (r ∷ rs) rows d s =
      save_all-Simulates j zero_float rs (save j r rows) (insert r.run_id r d)
        (save-Simulates j zero_float r rows d s)

  -- After any sequence of saves to an empty store, `get` and `count` answer as the dictionary from
  -- ids to records that the same sequence of assignments makes.
  pub saves_are_a_dictionary :
      (j : Json J) (zero_float : F) (rs : List (RunRecord F)) (id : Text)
      → (get j zero_float id (save_all j rs []) ≡ ok (lookup id (by_id rs [])))
        × (count (save_all j rs []) ≡ length (by_id rs []))
        × IsKeyed (save_all j rs [])
  unfolding get count IsKeyed lookup
  saves_are_a_dictionary j zero_float rs id =
      let s = save_all-Simulates j zero_float rs [] [] (λ i. refl, refl, tt) in (s.0 id, s.1, s.2)
