-- ===== src/Store/Examples.antt =====
-- Run stores at concrete inputs.
use chen.Common.{
  ◌^◌, ltb, ℕ, Text, String, codes, false, ◌≡◌, refl, none, some, List, [], ◌∷◌, length, All,
  codes_key,
}
use chen.Common.Result.{ok, raised}
use chen.Common.Dict.{lookup, insert}
use chen.Common.Sort.Shuffle.{same}
use chen.Store.{
  pos, database_error, RunRecord, Row, Json, to_dict, save, get, list, count, of_phase, IsKeyed,
}
use chen.Store.Saved.{save_all, by_id, saves_are_a_dictionary}
use chen.Store.Order.{Newest, IsNewestFirst, IsOf, left}
use chen.Store.Listed.{list_lem}
use chen.Store.Postgres.{Columns, Connect, PostgresRunStore, PgRow}
use chen.Store.Postgres
use chen.Store.Postgres.Upsert.{kept, after_save, stored, get-save_pg}

abbrev json : Json (List String)
json = record { dumps = λ names. names; loads = λ names. ok names; loads-dumps = λ names. refl }

abbrev first : RunRecord ℕ
first = record {
  run_id = codes "1";
  config_hash = codes "10";
  prompt = codes "hi";
  output = codes "ho";
  phase = 1;
  backend = "mock";
  router = "";
  selected_experts = "a" ∷ [];
  total_tokens = 2;
  total_cost_usd = 3;
  total_latency_ms = 4;
  epu = 5;
  kv_transfers = 0;
  timestamp = codes "2026";
  trace_id = [];
  tenant_id = codes "t";
}

abbrev second : RunRecord ℕ
second = record first { run_id = codes "2"; phase = 3; timestamp = codes "2027" }

abbrev again : RunRecord ℕ
again = record first { prompt = codes "hey"; output = codes "hoy" }

rows_of : List (RunRecord ℕ) → List (Row ℕ (List String))
rows_of rs = save_all json rs []

count_two : count (rows_of (first ∷ second ∷ again ∷ [])) ≡ 2
unfolding count rows_of save_all save to_dict
count_two = refl

saves_are_a_dictionary_example :
    (get json 0 (codes "1") (save_all json (first ∷ second ∷ again ∷ []) []) ≡ ok (some again))
    × (count (save_all json (first ∷ second ∷ again ∷ []) []) ≡ 2)
    × IsKeyed (save_all json (first ∷ second ∷ again ∷ []) [])
unfolding by_id insert lookup
saves_are_a_dictionary_example =
    saves_are_a_dictionary json 0 (first ∷ second ∷ again ∷ []) (codes "1")

-- Times that are all the same: any order is one of the newest first.
all_equal :
    (rows : List (Row ℕ (List String))) → All (λ (row : Row ℕ (List String)). false ≡ false) rows
all_equal [] = tt
all_equal (row ∷ rows) = (refl, all_equal rows)

as_they_are :
    (rows : List (Row ℕ (List String)))
    → IsNewestFirst (λ i j. false) (λ (row : Row ℕ (List String)). row.timestamp) rows
unfolding IsNewestFirst
as_they_are [] = tt
as_they_are (row ∷ rows) = (all_equal rows, as_they_are rows)

newest : Newest ℕ (List String)
newest = record {
  later = λ i j. false;
  by_time = λ rows. rows;
  shuffles = λ rows. same rows;
  sorts = as_they_are;
}

list_lem_example :
    (out : List (RunRecord ℕ)) × (list json 0 newest.by_time
        (pos 1)
        (some 3)
        (save_all json (first ∷ second ∷ again ∷ []) [])
      ≡ ok out)
    × All
        (λ r.
          (get json 0 r.run_id (save_all json (first ∷ second ∷ again ∷ []) []) ≡ ok (some r))
          × IsOf (some 3) r)
        out
    × IsNewestFirst newest.later (λ (r : RunRecord ℕ). r.timestamp) out
    × (length out
        ≡ left
            (pos 1)
            (length (of_phase (some 3) (save_all json (first ∷ second ∷ again ∷ []) []))))
list_lem_example = list_lem newest json 0 (pos 1) (some 3) (first ∷ second ∷ again ∷ [])

abbrev columns : Columns ℕ (List String) Text
columns = record {
  dumps = λ names. names;
  jsonb = λ names. names;
  loads = λ names. ok names;
  fromisoformat = λ text. ok text;
  isoformat = λ time. time;
  real = λ n. n;
  zero_float = 0;
  accepts = λ row. ltb row.phase (2 ^ 31);
  loads-jsonb = λ names. refl;
}

abbrev working : Connect ℕ
working = record { create_pool = ok 7; execute_schema = λ c. ok tt }

abbrev unready : Connect ℕ
unready = record { create_pool = ok 7; execute_schema = λ c. raised database_error }

abbrev fresh : PostgresRunStore ℕ (List String) Text ℕ
fresh = record { pool = none; table = none }

abbrev saved_once : PostgresRunStore ℕ (List String) Text ℕ
saved_once = record fresh {
  pool = some 7;
  table = some (
      record {
        run_id = codes "1";
        config_hash = codes "10";
        timestamp = codes "2026";
        prompt = codes "hi";
        output = codes "ho";
        phase = 1;
        backend = "mock";
        router = some "";
        selected_experts = "a" ∷ [];
        total_tokens = 2;
        total_cost_usd = 3;
        total_latency_ms = 4;
        epu = some 5;
        kv_transfers = some 0;
      }
      ∷ []);
}

get-save_pg_example :
    ((Postgres.save working columns again saved_once).0 ≡ ok tt)
    × ((Postgres.get working columns
          (codes "1")
          (Postgres.save working columns again saved_once).1).0
        ≡ ok (
            some (
              after_save
                (kept columns (codes "2026") again)
                (some (kept columns (codes "2026") first)))))
unfolding Postgres.get kept Postgres.with_pool stored
get-save_pg_example =
    get-save_pg working columns 7 (codes "2026") again (some (kept columns (codes "2026") first))
      (codes "1") saved_once refl refl refl
