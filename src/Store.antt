-- ===== src/Store.antt =====
-- src/chen/persistence/run_store.py: runs kept in SQLite. The table is the list of its rows in the
-- order in which they were put, and an SQL statement is what it does to them. `F` stands for floats,
-- `J` for JSON texts.
pub mod Saved
pub mod Order
pub mod Listed
pub mod Postgres
mod Examples
use chen.Common.{
  ℕ, Text, String, Bool, true, false, not, Option, none, some, List, [], ◌∷◌, ◌++◌, eqb, length,
  take, keep, find, All, ltb, if◌then◌else◌, ◌==◌, codes_key, ◌≡◌,
}
use chen.Common.Result.{Result, ok, raised, ◌>>=◌}
use chen.Common.Sort.Shuffle.{Shuffle}

pub data StoreError : Type 0 where
  json_error value_error database_error : StoreError

-- Limits may be negative.
pub data ℤ : Type 0 where
  pos : ℕ → ℤ
  negsuc : ℕ → ℤ

pub record RunRecord (F : Type 0) : Type 0 where
  pub run_id : Text
  pub config_hash : Text
  pub prompt : Text
  pub output : Text
  pub phase : ℕ
  pub backend : String
  pub router : String
  pub selected_experts : List String
  pub total_tokens : ℕ
  pub total_cost_usd : F
  pub total_latency_ms : F
  pub epu : F
  pub kv_transfers : ℕ
  pub timestamp : Text
  pub trace_id : Text
  pub tenant_id : Text

-- A row of the table `runs`: the columns without NOT NULL are options.
pub record Row (F : Type 0) (J : Type 0) : Type 0 where
  pub run_id : Text
  pub config_hash : Text
  pub timestamp : Text
  pub prompt : Text
  pub output : Text
  pub phase : ℕ
  pub backend : String
  pub router : Option String
  pub selected_experts : J
  pub total_tokens : ℕ
  pub total_cost_usd : F
  pub total_latency_ms : F
  pub epu : Option F
  pub kv_transfers : Option ℕ
  pub trace_id : Option Text
  pub tenant_id : Option Text

-- `json.dumps` and `json.loads` on lists of names.
pub record Json (J : Type 0) : Type 0 where
  pub dumps : List String → J
  pub loads : J → Result StoreError (List String)
  pub loads-dumps : (names : List String) → loads (dumps names) ≡ ok names

-- `x or d`, and `x if x is not None else d`
unfoldable pub or_default {ℓ} : {A : Type ℓ} → Option A → A → A
or_default none d = d
or_default (some a) d = a

-- LIMIT: a negative one is none.
unfoldable pub limited {ℓ} : {A : Type ℓ} → ℤ → List A → List A
limited (pos n) rows = take n rows
limited (negsuc n) rows = rows

module _ {F : Type 0} {J : Type 0} where
  -- `to_dict`
  unfoldable pub to_dict : Json J → RunRecord F → Row F J
  to_dict j r = record {
    run_id = r.run_id;
    config_hash = r.config_hash;
    timestamp = r.timestamp;
    prompt = r.prompt;
    output = r.output;
    phase = r.phase;
    backend = r.backend;
    router = some r.router;
    selected_experts = j.dumps r.selected_experts;
    total_tokens = r.total_tokens;
    total_cost_usd = r.total_cost_usd;
    total_latency_ms = r.total_latency_ms;
    epu = some r.epu;
    kv_transfers = some r.kv_transfers;
    trace_id = some r.trace_id;
    tenant_id = some r.tenant_id;
  }

  -- `from_row`
  unfoldable pub from_row : Json J → F → Row F J → Result StoreError (RunRecord F)
  unfolding or_default
  from_row j zero_float row = do
    names ← j.loads row.selected_experts
    let r : RunRecord F = record {
      run_id = row.run_id;
      config_hash = row.config_hash;
      prompt = row.prompt;
      output = row.output;
      phase = row.phase;
      backend = row.backend;
      router = or_default row.router "";
      selected_experts = names;
      total_tokens = row.total_tokens;
      total_cost_usd = row.total_cost_usd;
      total_latency_ms = row.total_latency_ms;
      epu = or_default row.epu zero_float;
      kv_transfers = or_default row.kv_transfers 0;
      timestamp = row.timestamp;
      trace_id = or_default row.trace_id [];
      tenant_id = or_default row.tenant_id [];
    }
    ok r

  -- INSERT OR REPLACE: a row with the key of the new one is deleted.
  unfoldable pub replace : Row F J → List (Row F J) → List (Row F J)
  replace new rows = keep (λ (row : Row F J). not (row.run_id == new.run_id)) rows ++ new ∷ []

  -- `save`
  unfoldable pub save : Json J → RunRecord F → List (Row F J) → List (Row F J)
  unfolding to_dict replace
  save j r rows = replace (to_dict j r) rows

  -- `get`
  unfoldable pub get : Json J → F → Text → List (Row F J) → Result StoreError (Option (RunRecord F))
  unfolding from_row
  get j zero_float run_id rows = elim (find (λ (row : Row F J). row.run_id == run_id) rows) [
    | none ↦ ok none
    | some row ↦ (do r ← from_row j zero_float row; ok (some r))
  ]

  unfoldable pub from_rows : Json J → F → List (Row F J) → Result StoreError (List (RunRecord F))
  unfolding from_row
  from_rows j zero_float [] = ok []
  from_rows j zero_float (row ∷ rows) = do
    r ← from_row j zero_float row
    rs ← from_rows j zero_float rows
    ok (r ∷ rs)

  unfoldable pub of_phase : Option ℕ → List (Row F J) → List (Row F J)
  of_phase none rows = rows
  of_phase (some phase) rows = keep (λ (row : Row F J). eqb row.phase phase) rows

  -- `list`; `by_time` is ORDER BY timestamp DESC.
  unfoldable pub list :
      Json J
      → F
      → (List (Row F J) → List (Row F J))
      → ℤ
      → Option ℕ
      → List (Row F J)
      → Result StoreError (List (RunRecord F))
  unfolding from_rows limited of_phase
  list j zero_float by_time limit phase rows =
      from_rows j zero_float (limited limit (by_time (of_phase phase rows)))

  -- `count`
  unfoldable pub count : List (Row F J) → ℕ
  count rows = length rows

  -- No two rows have the same key.
  unfoldable pub IsKeyed : List (Row F J) → Type 0
  IsKeyed [] = Unit
  IsKeyed (row ∷ rows) =
      All (λ (other : Row F J). (other.run_id == row.run_id) ≡ false) rows × IsKeyed rows
