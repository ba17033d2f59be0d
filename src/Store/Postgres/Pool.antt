-- ===== src/Store/Postgres/Pool.antt =====
-- Connecting to PostgreSQL (src/chen/persistence/pg_store.py).
use chen.Common.{◌≡◌, none, some, inl, inr, length, arith, Option-cases}
use chen.Common.Result.{ok, raised}
use chen.Store.{StoreError, database_error}
use chen.Store.Postgres.{Connect, PostgresRunStore, ensure_pool, with_pool, count, close}

-- If the schema cannot be executed on a new pool, the first operation raises, but the pool stays: the
-- next one runs on it, without the schema having been executed, and finds the rows of the table or no
-- table. Only `close` makes the store execute the schema again.
pub failed_schema_forgotten :
    {F J T C : Type 0} (a : Connect C) (s : PostgresRunStore F J T C) (c : C) (x : StoreError)
    → s.pool ≡ none
    → a.create_pool ≡ ok c
    → a.execute_schema c ≡ raised x
    → ((count a s).0 ≡ raised x)
      × ((count a (count a s).1).0
          ≡ (elim s.table [ none ↦ raised database_error | some rows ↦ ok (length rows) ]))
      × ((count a (close (count a (count a s).1).1)).0 ≡ raised x)
unfolding count close ensure_pool with_pool
failed_schema_forgotten a s c x fresh opened failed = elim (Option-cases s.table) [
  | inl absent ↦ ground (arith, fresh, opened, failed, absent)
  | inr (rows, there) ↦ ground (arith, fresh, opened, failed, there)
]
