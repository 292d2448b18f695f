-- ===== src/Store/Driver/Owned.antt =====
-- The databases that `Open` opens and closes.
use contrato_core.Base.{arith, ℕ, ◌≡◌, refl, String, true, Option, none, some}
use contrato_core.Json.{Map, at, as_text}
use contrato_core.Storage.{
  Capability, has, cap_tx, cap_doc, cap_kv, cap_cas, cap_graph, cap_ttl, Result, ok, err,
}
use contrato_core.Storage.Host.{Host, Op, open_db, ping}
use contrato_core.Storage.Host.Handles.{
  Same, Same-refl, Same-trans, Borrows, WithDb, WithDb-trans, ping-Borrows, close_db-Same,
}
use contrato_core.Store.{SqlStore}
use contrato_core.Store.Driver.{
  Goose, migrate, or_wrapped, Driver, or_empty, or_close, run_migration, new_cap_set, all_caps,
  connect, open_store,
}

-- A call that succeeds, and the process that it leaves, with one more open database, that of a store
-- with every capability; or a call that fails, and nothing more is open.
abbrev pub IsOwned : Host → Result SqlStore × Host → Type 0
IsOwned h (ok s, h') = WithDb s.db h h' × ((c : Capability) → has s.cap c ≡ true)
IsOwned h (err x, h') = Same h h'

-- Neither what `Open` is given for a migration nor the migrations of goose close or begin anything.
abbrev pub MigrationBorrows : Option (ℕ → Op (Unit {0})) → Type 0
MigrationBorrows none = Unit {0}
MigrationBorrows (some run) = (db : ℕ) → Borrows (run db)

pub record GooseBorrows {Files : Type 0} (goose : Goose Files) : Type 0 where
  pub set_base_fs : (files : Files) (h : Host) → Same h (goose.set_base_fs files h)
  pub set_dialect : (name : String) → Borrows (goose.set_dialect name)
  pub up : (db : ℕ) (dir : String) → Borrows (goose.up db dir)

or_wrapped-Same :
    (context : String) (h : Host) (o : Result (Unit {0}) × Host)
    (next : Host → Result (Unit {0}) × Host)
    → Same h o.1
    → ((h' : Host) → Same h h' → Same h (next h').1)
    → Same h (or_wrapped context o next).1
or_wrapped-Same context h (ok _, h') next s n = n h' s
or_wrapped-Same context h (err x, h') next s n = s

pub migrate-Borrows :
    {Files : Type 0} (goose : Goose Files) (files : Files)
    → GooseBorrows goose
    → (db : ℕ) → Borrows (migrate goose files db)
unfolding migrate
migrate-Borrows {Files} goose files g db h =
    or_wrapped-Same "migrate: set dialect" h (goose.set_dialect "postgres" started) (after_dialect)
      (Same-trans (g.set_base_fs files h) (g.set_dialect "postgres" started))
      λ h' s.
        or_wrapped-Same "migrate: up" h (goose.up db "." h') (λ h''. (ok tt, h''))
          (Same-trans s (g.up db "." h')) (λ h'' s'. s')
  where
    started : Host
    started = goose.set_base_fs files h

    after_dialect : Host → Result (Unit {0}) × Host
    after_dialect h' = or_wrapped "migrate: up" (goose.up db "." h') λ h''. (ok tt, h'')

or_close-IsOwned :
    (h : Host) (db : ℕ) (o : Result (Unit {0}) × Host) (next : Host → Result SqlStore × Host)
    → WithDb db h o.1
    → ((h' : Host) → WithDb db h h' → IsOwned h (next h'))
    → IsOwned h (or_close db o next)
or_close-IsOwned h db (ok _, h') next s n = n h' s
or_close-IsOwned h db (err x, h') next s n = close_db-Same s

new_store-has : (c : Capability) → has (new_cap_set all_caps) c ≡ true
unfolding new_cap_set has
new_store-has cap_tx = refl
new_store-has cap_graph = refl
new_store-has cap_kv = refl
new_store-has cap_doc = refl
new_store-has cap_cas = refl
new_store-has cap_ttl = refl

run_migration-Borrows :
    (run : Option (ℕ → Op (Unit {0})))
    → MigrationBorrows run
    → (db : ℕ) → Borrows (run_migration run db)
run_migration-Borrows none m db h = Same-refl h
run_migration-Borrows (some run) m db h = m db h

connect-IsOwned :
    (d : Driver) (h : Host) (db : ℕ) (h' : Host)
    → MigrationBorrows d.migrate
    → WithDb db h h'
    → IsOwned h (connect d (ok db, h'))
connect-IsOwned d h db h' m s =
    or_close-IsOwned h db (ping db h') _ (WithDb-trans s (ping-Borrows db h')) λ h2 s2.
      or_close-IsOwned h db (run_migration d.migrate db h2) _
        (WithDb-trans s2 (run_migration-Borrows d.migrate m db h2)) λ h3 s3. (s3, new_store-has)

module _ (dsn_error : String → Option String) where
  opened :
      (d : Driver) (refusal : Option String) (h : Host)
      → MigrationBorrows d.migrate
      → IsOwned h (connect d (open_db refusal h))
  unfolding open_db
  opened d none h m =
      connect-IsOwned d h h.made _ m
        (record { dbs = refl; txs = refl; timers = refl; fresh = (omega arith, omega arith) })
  opened d (some why) h m = Same-refl h

  -- Where the migration closes no database and leaves no transaction or timer behind: if `Open`
  -- fails, at the ping or at the migration too, no database is open that was not open before; if it returns a
  -- store, its database is the only new one, and the store has each of the six capabilities.
  pub open_store-IsOwned :
      (d : Driver) (cfg : Map) (h : Host)
      → MigrationBorrows d.migrate
      → IsOwned h (open_store dsn_error d cfg h)
  unfolding open_store
  open_store-IsOwned d cfg h m = opened d (dsn_error (or_empty (as_text (at "dsn" cfg)))) h m
