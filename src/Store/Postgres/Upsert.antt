-- ===== src/Store/Postgres/Upsert.antt =====
-- Saving a run twice in PostgreSQL (src/chen/persistence/pg_store.py).
use chen.Common.{
  Text, Bool, ◌≡◌, inl, inr, Option, none, some, List, [], ◌∷◌, find, if◌then◌else◌, arith, ◌==◌,
  codes_key, Option-cases,
}
use chen.Common.Result.{ok, raised, Result-cases}
use chen.Store.{RunRecord, or_default, database_error}
use chen.Store.Postgres.{
  PgRow, Columns, Connect, PostgresRunStore, ensure_pool, with_pool, new_row, update, upsert,
  row_to_record, save, get,
}

-- What is read of a record where an older run has its id.
unfoldable pub merged : {F : Type 0} → RunRecord F → RunRecord F → RunRecord F
merged new old = record old {
  output = new.output;
  total_tokens = new.total_tokens;
  total_cost_usd = new.total_cost_usd;
  total_latency_ms = new.total_latency_ms;
  epu = new.epu;
  kv_transfers = new.kv_transfers;
  timestamp = new.timestamp;
}

unfoldable pub after_save : {F : Type 0} → RunRecord F → Option (RunRecord F) → RunRecord F
unfolding merged
after_save new none = new
after_save new (some old) = merged new old

module _ {F : Type 0} {J : Type 0} {T : Type 0} where
  abbrev id_is : Text → PgRow F J T → Bool
  id_is id row = row.run_id == id

  upserted : PgRow F J T → Option (PgRow F J T) → PgRow F J T
  upserted new none = new
  upserted new (some old) = update new old

  find-upsert :
      (new : PgRow F J T) (id : Text) (rows : List (PgRow F J T))
      → find (id_is id) (upsert new rows) ≡ (
          if new.run_id == id
          then some (upserted new (find (id_is new.run_id) rows))
          else find (id_is id) rows)
  unfolding upsert update upserted
  find-upsert new id [] = ground arith
  find-upsert new id (row ∷ rows) = ground (
    arith,
    find-upsert new id rows,
    codes_key.same_iff row.run_id new.run_id,
    codes_key.same_iff row.run_id id,
    codes_key.same_iff new.run_id id,
  )

  -- What is read of a record that was saved at the time `t`.
  unfoldable pub kept : Columns F J T → T → RunRecord F → RunRecord F
  kept k t r = record r {
    total_cost_usd = k.real r.total_cost_usd;
    total_latency_ms = k.real r.total_latency_ms;
    epu = k.real r.epu;
    timestamp = k.isoformat t;
    trace_id = [];
    tenant_id = [];
  }

  -- The row that is sent for a record with the time `t`.
  unfoldable pub stored : Columns F J T → T → RunRecord F → PgRow F J T
  stored k t r = record {
    run_id = r.run_id;
    config_hash = r.config_hash;
    timestamp = t;
    prompt = r.prompt;
    output = r.output;
    phase = r.phase;
    backend = r.backend;
    router = some r.router;
    selected_experts = k.jsonb (k.dumps r.selected_experts);
    total_tokens = r.total_tokens;
    total_cost_usd = k.real r.total_cost_usd;
    total_latency_ms = k.real r.total_latency_ms;
    epu = some (k.real r.epu);
    kv_transfers = some r.kv_transfers;
  }

  new_row-stored :
      (k : Columns F J T) (t : T) (r : RunRecord F)
      → k.fromisoformat r.timestamp ≡ ok t
      → (new_row k r ≡ ok (stored k t r)) × (row_to_record k (stored k t r) ≡ ok (kept k t r))
  unfolding new_row stored row_to_record kept or_default
  new_row-stored k t r h =
      let names = k.loads-jsonb r.selected_experts in (ground (arith, h), ground (arith, names))

  row_to_record-update :
      (k : Columns F J T) (t : T) (r : RunRecord F) (old : PgRow F J T) (o : RunRecord F)
      → row_to_record k old ≡ ok o
      → row_to_record k (update (stored k t r) old) ≡ ok (merged (kept k t r) o)
  unfolding stored row_to_record kept merged update or_default
  row_to_record-update k t r old o h = elim (Result-cases (k.loads old.selected_experts)) [
    | inl (names, read) ↦ ground (arith, read, h)
    | inr (x, failed) ↦ absurd (ground (arith, failed, h))
  ]

  module _ {C : Type 0} where
    -- With a pool, and a table in which `get` can read the run of a record's id, or finds none: a save
    -- of the record, with a time that can be read, raises if its values do not fit the columns, and
    -- `get` returns for every id what it returned before. If they fit, the save succeeds. Then `get`
    -- returns for the id of the record what was sent, rounded to the columns, if the id is new; if
    -- not, the prompt, the configuration's hash, the phase, the backend, the router and the selected
    -- experts are still those of the older run. For every other id it returns what it returned before.
    pub get-save_pg :
        (a : Connect C) (k : Columns F J T) (c : C) (t : T) (r : RunRecord F)
        (old : Option (RunRecord F)) (id : Text) (s : PostgresRunStore F J T C)
        → s.pool ≡ some c
        → k.fromisoformat r.timestamp ≡ ok t
        → (get a k r.run_id s).0 ≡ ok old
        → ((save a k r s).0 ≡ (if k.accepts (stored k t r) then ok tt else raised database_error))
          × ((get a k id (save a k r s).1).0 ≡ (
              if k.accepts (stored k t r)
              then if r.run_id == id
                then ok (some (after_save (kept k t r) old))
                else (get a k id s).0
              else (get a k id s).0))
    unfolding get save with_pool ensure_pool after_save upserted stored
    get-save_pg a k c t r old id s opened time before =
        let (sent, back) = new_row-stored k t r time in
        elim (Option-cases s.table) [
          | inl gone ↦ absurd (ground (arith, opened, gone, before))
          | inr (rows, table) ↦
              let found = find-upsert (stored k t r) id rows in
              elim (Option-cases (find (id_is r.run_id) rows)) [
                | inl absent ↦ ground (arith, opened, table, sent, back, found, absent, before)
                | inr (row, there) ↦ elim (Result-cases (row_to_record k row)) [
                  | inl (o, read) ↦
                      let joined = row_to_record-update k t r row o read in
                      ground (arith, opened, table, sent, found, there, read, joined, before)
                  | inr (x, failed) ↦ absurd (ground (arith, opened, table, there, failed, before))
                ]
              ]
        ]
