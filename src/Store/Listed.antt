-- ===== src/Store/Listed.antt =====
-- What `list` returns (src/chen/persistence/run_store.py).
use chen.Common.{
  length-map, ℕ, map, ap, sym, ◌∙◌, false, ◌≡◌, refl, inl, inr, Option, none, some, List, [], ◌∷◌,
  eqb, length, find, All, All-take, All-keep, All-append, arith, ◌==◌, codes_key, Bool-cases,
}
use mathlib.Core.Path.{subst}
use chen.Common.Result.{ok}
use chen.Common.Sort.Shuffle.{All-Shuffle}
use chen.Store.{
  ℤ, pos, negsuc, RunRecord, Row, Json, to_dict, replace, save, get, from_rows, limited, of_phase,
  list, IsKeyed,
}
use chen.Store.Saved.{from_row-to_dict, id_is, save_all, saves_are_a_dictionary}
use chen.Store.Order.{
  IsNewestFirst, Newest, IsOf, left, IsNewestFirst-map, length-limited, length-Shuffle,
  limited-IsNewestFirst,
}

module _ {F : Type 0} {J : Type 0} where
  abbrev IsDict : Json J → Row F J → Type 0
  IsDict j row = (r : RunRecord F) × (row ≡ to_dict j r)

  save_all-IsDict :
      (j : Json J) (rs : List (RunRecord F)) (rows : List (Row F J))
      → All (IsDict j) rows
      → All (IsDict j) (save_all j rs rows)
  unfolding save_all save replace
  save_all-IsDict j [] rows h = h
  save_all-IsDict j (r ∷ rs) rows h =
      save_all-IsDict j rs (save j r rows)
        (All-append (IsDict j) _ (to_dict j r ∷ []) (All-keep (IsDict j) _ rows h) ((r, refl), tt))

  -- A row that is in a keyed table is the one that is found.
  abbrev IsFound : List (Row F J) → Row F J → Type 0
  IsFound rows row = find (id_is row.run_id) rows ≡ some row

  IsFound-cons :
      (first : Row F J) (rows found : List (Row F J))
      → All (λ (other : Row F J). (other.run_id == first.run_id) ≡ false) found
      → All (IsFound rows) found
      → All (IsFound (first ∷ rows)) found
  IsFound-cons first rows [] differ h = tt
  IsFound-cons first rows (row ∷ found) differ h = (
    ground (
      arith,
      differ.0,
      h.0,
      codes_key.same_iff first.run_id row.run_id,
      codes_key.same_iff row.run_id first.run_id,
    ),
    IsFound-cons first rows found differ.1 h.1,
  )

  IsKeyed-IsFound : (rows : List (Row F J)) → IsKeyed rows → All (IsFound rows) rows
  unfolding IsKeyed
  IsKeyed-IsFound [] h = tt
  IsKeyed-IsFound (row ∷ rows) h = (
    ground (arith, codes_key.same_iff row.run_id row.run_id),
    IsFound-cons row rows rows h.0 (IsKeyed-IsFound rows h.1),
  )

  All-limited {κ} :
      (P : Row F J → Type κ) (limit : ℤ) (rows : List (Row F J))
      → All P rows
      → All P (limited limit rows)
  unfolding limited
  All-limited P (pos n) rows h = All-take P n rows h
  All-limited P (negsuc n) rows h = h

  All-of_phase {κ} :
      (P : Row F J → Type κ) (phase : Option ℕ) (rows : List (Row F J))
      → All P rows
      → All P (of_phase phase rows)
  unfolding of_phase
  All-of_phase P none rows h = h
  All-of_phase P (some i) rows h = All-keep P _ rows h

  All-pair {κ μ} :
      (P : Row F J → Type κ) (Q : Row F J → Type μ) (rows : List (Row F J))
      → All P rows
      → All Q rows
      → All (λ row. P row × Q row) rows
  All-pair P Q [] h k = tt
  All-pair P Q (row ∷ rows) h k = ((h.0, k.0), All-pair P Q rows h.1 k.1)

  from_rows-dicts :
      (j : Json J) (zero_float : F) (rows : List (Row F J))
      → All (IsDict j) rows
      → (out : List (RunRecord F)) × (from_rows j zero_float rows ≡ ok out)
        × (map (to_dict j) out ≡ rows)
  unfolding from_rows
  from_rows-dicts j zero_float [] h = ([], refl, refl)
  from_rows-dicts j zero_float (row ∷ rows) h =
      let (r, dict) = h.0 in
      let (out, read, same) = from_rows-dicts j zero_float rows h.1 in
      (
        r ∷ out,
        ground (arith, dict, read, from_row-to_dict j zero_float r),
        ground (arith, dict, same),
      )

  -- What is listed are records that `get` returns, of the phase that was asked for.
  abbrev IsListed : Json J → F → Option ℕ → List (Row F J) → RunRecord F → Type 0
  IsListed j zero_float phase rows r = (get j zero_float r.run_id rows ≡ ok (some r)) × IsOf phase r

  get-IsFound :
      (j : Json J) (zero_float : F) (rows : List (Row F J)) (r : RunRecord F)
      → IsFound rows (to_dict j r)
      → get j zero_float r.run_id rows ≡ ok (some r)
  unfolding get to_dict
  get-IsFound j zero_float rows r h =
      let back = from_row-to_dict j zero_float r in ground (arith, h, back)

  IsRowOf : Option ℕ → Row F J → Type 0
  IsRowOf none row = Unit
  IsRowOf (some i) row = row.phase ≡ i

  All-IsRowOf :
      (phase : Option ℕ) (rows : List (Row F J)) → All (IsRowOf phase) (of_phase phase rows)
  unfolding of_phase IsRowOf
  All-IsRowOf none [] = tt
  All-IsRowOf none (row ∷ rows) = (tt, All-IsRowOf none rows)
  All-IsRowOf (some i) [] = tt
  All-IsRowOf (some i) (row ∷ rows) = elim (Bool-cases (eqb row.phase i)) [
    | inl same ↦ rw same (ground (arith, same), All-IsRowOf (some i) rows)
    | inr other ↦ rw other (All-IsRowOf (some i) rows)
  ]

  abbrev IsGood : Json J → Option ℕ → List (Row F J) → Row F J → Type 0
  IsGood j phase rows row = (IsFound rows row × IsDict j row) × IsRowOf phase row

  chosen-IsGood :
      (j : Json J) (zero_float : F) (phase : Option ℕ) (rs : List (RunRecord F))
      → All (IsGood j phase (save_all j rs [])) (of_phase phase (save_all j rs []))
  chosen-IsGood j zero_float phase rs =
      let rows = save_all j rs [] in
      let keyed = (saves_are_a_dictionary j zero_float rs []).2 in
      let found =
        All-pair (IsFound rows) (IsDict j) rows (IsKeyed-IsFound rows keyed)
          (save_all-IsDict j rs [] tt) in
      All-pair _ (IsRowOf phase) (of_phase phase rows) (All-of_phase _ phase rows found)
        (All-IsRowOf phase rows)

  All-IsDict :
      (j : Json J) (phase : Option ℕ) (rows shown : List (Row F J))
      → All (IsGood j phase rows) shown
      → All (IsDict j) shown
  All-IsDict j phase rows [] h = tt
  All-IsDict j phase rows (row ∷ shown) h = (h.0.0.1, All-IsDict j phase rows shown h.1)

  IsOf-row :
      (j : Json J) (phase : Option ℕ) (r : RunRecord F) → IsRowOf phase (to_dict j r) → IsOf phase r
  unfolding IsRowOf IsOf to_dict
  IsOf-row j none r h = tt
  IsOf-row j (some i) r h = h

  listed :
      (j : Json J) (zero_float : F) (phase : Option ℕ) (rows : List (Row F J))
      (out : List (RunRecord F))
      → All (IsGood j phase rows) (map (to_dict j) out)
      → All (IsListed j zero_float phase rows) out
  listed j zero_float phase rows [] h = tt
  listed j zero_float phase rows (r ∷ out) h = (
    (get-IsFound j zero_float rows r h.0.0.0, IsOf-row j phase r h.0.1),
    listed j zero_float phase rows out h.1,
  )

  -- After any sequence of saves to an empty store, `list` returns records that `get` returns for
  -- their ids, of the phase that was asked for, newest first, and of the runs of that phase as many
  -- as the limit allows: all of them if it is negative.
  pub list_lem :
      (n : Newest F J) (j : Json J) (zero_float : F) (limit : ℤ) (phase : Option ℕ)
      (rs : List (RunRecord F))
      → (out : List (RunRecord F)) × (list j zero_float n.by_time limit phase (save_all j rs [])
          ≡ ok out)
        × All (λ r. (get j zero_float r.run_id (save_all j rs []) ≡ ok (some r)) × IsOf phase r) out
        × IsNewestFirst n.later (λ (r : RunRecord F). r.timestamp) out
        × (length out ≡ left limit (length (of_phase phase (save_all j rs []))))
  unfolding list to_dict
  list_lem n j zero_float limit phase rs =
      let rows = save_all j rs [] in
      let chosen = of_phase phase rows in
      let shown = limited limit (n.by_time chosen) in
      let good = All-limited (IsGood j phase rows) limit (n.by_time chosen) (
        All-Shuffle (IsGood j phase rows) (n.shuffles chosen)
          (chosen-IsGood j zero_float phase rs)) in
      let (out, read, same) =
        from_rows-dicts j zero_float shown (All-IsDict j phase rows shown good) in
      let size = length-map (to_dict j) out in
      let cut = length-limited limit (n.by_time chosen) in
      let whole = length-Shuffle (n.shuffles chosen) in
      (
        out,
        read,
        listed j zero_float phase rows out (subst (All (IsGood j phase rows)) (sym same) good),
        IsNewestFirst-map n.later (λ (row : Row F J). row.timestamp) (to_dict j) out
            (subst (IsNewestFirst n.later (λ (row : Row F J). row.timestamp)) (sym same) (
              limited-IsNewestFirst n.later (λ (row : Row F J). row.timestamp) limit
                (n.by_time chosen) (n.sorts chosen))),
        sym size ∙ ap length same ∙ cut ∙ ap (left limit) (sym whole),
      )
