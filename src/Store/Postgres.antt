-- ===== src/Store/Postgres.antt =====
-- src/chen/persistence/pg_store.py: runs kept in PostgreSQL. asyncpg and the types of the columns are
-- the parameters `Connect` and `Columns`; an SQL statement is what it does to the list of the rows.
-- `C` stands for pools of connections and `T` for TIMESTAMPTZ. A statement raises where the database
-- has no table `runs`; the connection stays up.
pub mod Upsert
pub mod Pool
use chen.Common.{
  ℕ, Text, String, Bool, true, false, Option, none, some, List, [], ◌∷◌, ◌++◌, eqb, length, take,
  keep, find, map, if◌then◌else◌, ◌==◌, codes_key, ◌≡◌,
}
use chen.Common.Result.{Result, ok, raised, ◌>>=◌}
use chen.Store.{ℤ, pos, negsuc, StoreError, database_error, RunRecord, or_default}

pub record PgRow (F : Type 0) (J : Type 0) (T : Type 0) : Type 0 where
  pub run_id : Text
  pub config_hash : Text
  pub timestamp : T
  pub prompt : Text
  pub output : Text
  pub phase : ℕ
  pub backend : String
  pub router : Option String
  pub selected_experts : J
  pub total_tokens : ℕ
  pub total_cost_usd : F
  pub total_latency_ms : F
  pub epu : Option F
  pub kv_transfers : Option ℕ

-- `json.dumps`, then what JSONB keeps of it, and `json.loads`; `datetime.fromisoformat` and
-- `isoformat`; the 4-byte floats of REAL. `accepts` says whether the values that are sent fit the
-- columns: four-byte integers, texts without NUL, numbers in the range of REAL.
pub record Columns (F : Type 0) (J : Type 0) (T : Type 0) : Type 0 where
  pub dumps : List String → J
  pub jsonb : J → J
  pub loads : J → Result StoreError (List String)
  pub fromisoformat : Text → Result StoreError T
  pub isoformat : T → Text
  pub real : F → F
  pub zero_float : F
  pub accepts : PgRow F J T → Bool
  pub loads-jsonb : (names : List String) → loads (jsonb (dumps names)) ≡ ok names

-- Where the schema is executed without an error, there is a table afterwards.
pub record Connect (C : Type 0) : Type 0 where
  pub create_pool : Result StoreError C
  pub execute_schema : C → Result StoreError (Unit {0})

pub record PostgresRunStore (F : Type 0) (J : Type 0) (T : Type 0) (C : Type 0) : Type 0 where
  pub pool : Option C
  pub table : Option (List (PgRow F J T))

module _ {F : Type 0} {J : Type 0} {T : Type 0} where
  -- CREATE TABLE IF NOT EXISTS
  unfoldable pub created : Option (List (PgRow F J T)) → List (PgRow F J T)
  created none = []
  created (some rows) = rows

  -- `_ensure_pool`: the pool is kept before the schema is executed.
  unfoldable pub ensure_pool :
      {C : Type 0}
      → Connect C
      → PostgresRunStore F J T C
      → Result StoreError C × PostgresRunStore F J T C
  unfolding created
  ensure_pool a s = elim s.pool [
    | some c ↦ (ok c, s)
    | none ↦ elim a.create_pool [
      | raised x ↦ (raised x, s)
      | ok c ↦ elim (a.execute_schema c) [
        | raised x ↦ (raised x, record s { pool = some c })
        | ok done ↦ (ok c, record { pool = some c; table = some (created s.table) })
      ]
    ]
  ]

  -- The values that are sent.
  unfoldable pub new_row : Columns F J T → RunRecord F → Result StoreError (PgRow F J T)
  new_row k r = do
    t ← k.fromisoformat r.timestamp
    let row : PgRow F J T = record {
      run_id = r.run_id;
      config_hash = r.config_hash;
      timestamp = t;
      prompt = r.prompt;
      output = r.output;
      phase = r.phase;
      backend = r.backend;
      router = some r.router;
      selected_experts = k.jsonb (k.dumps r.selected_experts);
      total_tokens = r.total_tokens;
      total_cost_usd = k.real r.total_cost_usd;
      total_latency_ms = k.real r.total_latency_ms;
      epu = some (k.real r.epu);
      kv_transfers = some r.kv_transfers;
    }
    ok row

  -- ON CONFLICT (run_id) DO UPDATE SET
  unfoldable pub update : PgRow F J T → PgRow F J T → PgRow F J T
  update new old = record old {
    timestamp = new.timestamp;
    output = new.output;
    total_tokens = new.total_tokens;
    total_cost_usd = new.total_cost_usd;
    total_latency_ms = new.total_latency_ms;
    epu = new.epu;
    kv_transfers = new.kv_transfers;
  }

  -- INSERT INTO, of a row that fits the columns
  unfoldable pub upsert : PgRow F J T → List (PgRow F J T) → List (PgRow F J T)
  unfolding update
  upsert new [] = new ∷ []
  upsert new (row ∷ rows) =
      let rest = upsert new rows in
      if row.run_id == new.run_id then update new row ∷ rows else row ∷ rest

  -- `_row_to_record`
  unfoldable pub row_to_record : Columns F J T → PgRow F J T → Result StoreError (RunRecord F)
  unfolding or_default
  row_to_record k row = do
    names ← k.loads row.selected_experts
    let r : RunRecord F = record {
      run_id = row.run_id;
      config_hash = row.config_hash;
      prompt = row.prompt;
      output = row.output;
      phase = row.phase;
      backend = row.backend;
      router = or_default row.router "";
      selected_experts = names;
      total_tokens = row.total_tokens;
      total_cost_usd = row.total_cost_usd;
      total_latency_ms = row.total_latency_ms;
      epu = or_default row.epu k.zero_float;
      kv_transfers = or_default row.kv_transfers 0;
      timestamp = k.isoformat row.timestamp;
      trace_id = [];
      tenant_id = [];
    }
    ok r

  unfoldable pub rows_to_records :
      Columns F J T → List (PgRow F J T) → Result StoreError (List (RunRecord F))
  unfolding row_to_record
  rows_to_records k [] = ok []
  rows_to_records k (row ∷ rows) = do
    r ← row_to_record k row
    rs ← rows_to_records k rows
    ok (r ∷ rs)

  -- LIMIT, which may not be negative.
  unfoldable pub limited : ℤ → List (PgRow F J T) → Result StoreError (List (PgRow F J T))
  limited (pos n) rows = ok (take n rows)
  limited (negsuc n) rows = raised database_error

  unfoldable pub of_phase : Option ℕ → List (PgRow F J T) → List (PgRow F J T)
  of_phase none rows = rows
  of_phase (some phase) rows = keep (λ (row : PgRow F J T). eqb row.phase phase) rows

  module _ {C : Type 0} where
    -- A statement on the table, once there is a pool.
    unfoldable pub with_pool {ℓ} :
        {A : Type ℓ}
        → Connect C
        → (List (PgRow F J T) → Result StoreError A × List (PgRow F J T))
        → PostgresRunStore F J T C
        → Result StoreError A × PostgresRunStore F J T C
    unfolding ensure_pool
    with_pool a run s =
        let (opened, s') = ensure_pool a s in
        elim opened [
          | raised x ↦ (raised x, s')
          | ok c ↦ elim s'.table [
            | none ↦ (raised database_error, s')
            | some rows ↦
                let (result, rows') = run rows in (result, record s' { table = some rows' })
          ]
        ]

    -- `save`
    unfoldable pub save :
        Connect C
        → Columns F J T
        → RunRecord F
        → PostgresRunStore F J T C
        → Result StoreError (Unit {0}) × PostgresRunStore F J T C
    unfolding with_pool new_row upsert
    save a k r s =
        with_pool a
          (λ rows. elim (new_row k r) [
            | raised x ↦ (raised x, rows)
            | ok row ↦
                if k.accepts row then (ok tt, upsert row rows) else (raised database_error, rows)
          ])
          s

    -- `get`
    unfoldable pub get :
        Connect C
        → Columns F J T
        → Text
        → PostgresRunStore F J T C
        → Result StoreError (Option (RunRecord F)) × PostgresRunStore F J T C
    unfolding with_pool row_to_record
    get a k run_id s =
        with_pool a
          (λ rows. (
            elim (find (λ (row : PgRow F J T). row.run_id == run_id) rows) [
              | none ↦ ok none
              | some row ↦ (do r ← row_to_record k row; ok (some r))
            ],
            rows,
          ))
          s

    -- `list`; `by_time` is ORDER BY timestamp DESC.
    unfoldable pub list :
        Connect C
        → Columns F J T
        → (List (PgRow F J T) → List (PgRow F J T))
        → ℤ
        → Option ℕ
        → PostgresRunStore F J T C
        → Result StoreError (List (RunRecord F)) × PostgresRunStore F J T C
    unfolding with_pool rows_to_records limited of_phase
    list a k by_time limit phase s =
        with_pool a
          (λ rows. (limited limit (by_time (of_phase phase rows)) >>= rows_to_records k, rows)) s

    -- `count`
    unfoldable pub count :
        Connect C → PostgresRunStore F J T C → Result StoreError ℕ × PostgresRunStore F J T C
    unfolding with_pool
    count a s = with_pool a (λ rows. (ok (length rows), rows)) s

    -- `close`
    unfoldable pub close : PostgresRunStore F J T C → PostgresRunStore F J T C
    close s = record s { pool = none }
