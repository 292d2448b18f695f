-- ===== src/Http/Health.antt =====
-- The route `/health` of internal/api/httpapi/server.go.
use contrato_core.Base.{
  ℕ, ◌≡◌, ◌↔◌, refl, Bool-cases, String, true, Option, none, some, inl, inr, arith,
}
use contrato_core.Json.{Map, text, field, end}
use contrato_core.Storage.{Result, ok, err}
use contrato_core.Storage.Exec.{query, statement}
use contrato_core.Storage.Host.{Host, is_live, landed, cut_off, db_closed, through, ping, signal}
use contrato_core.Storage.Interfaces.{Store}
use contrato_core.Store.{SqlStore, as_store}
use contrato_core.Http.{Response, respond_ok, respond_error}

abbrev healthy : Map
healthy = some (field "status" (text "ok") end)

abbrev answered : Result (Unit {0}) × Host → Response Map × Host
answered (ok _, h) = (respond_ok healthy, h)
answered (err x, h) = (respond_error 503 "unhealthy", h)

unfoldable pub health : Store → Host → Response Map × Host
health store h = answered (store.health h)

-- The answer to a ping.
abbrev pub IsHealthy : SqlStore → Host → Type 0
IsHealthy s h = (is_live s.db h.dbs ≡ true) × (h.world.server.refuses h.world.ran ≡ none)

status_of_signal :
    (h : Host) (o : Option String)
    → h.world.server.refuses h.world.ran ≡ o
    → ((answered (landed h (signal h.world))).0.status ≡ 200) ↔ (o ≡ none)
unfolding query statement
status_of_signal h none e = rw e (λ s. refl, λ n. refl)
status_of_signal h (some x) e = rw e (λ s. absurd (ground arith), λ n. absurd (ground arith))

status_of_silence :
    (h : Host) → (answered (landed h (cut_off db_closed signal h.world))).0.status ≡ 503
unfolding query statement cut_off
status_of_silence h = refl

not_well : {n : ℕ} → n ≡ 503 → n ≡ 200 → ⊥
not_well e u = ground arith

-- `/health` answers 200 exactly if the database of the store is open and the service takes the ping.
pub health-IsHealthy :
    (etag_of : String → String) (s : SqlStore) (h : Host)
    → ((health (as_store etag_of s) h).0.status ≡ 200) ↔ IsHealthy s h
unfolding health as_store ping through
health-IsHealthy etag_of s h = elim (Bool-cases (is_live s.db h.dbs)) [
  | inl e ↦
      let (forth, back) = status_of_signal h (h.world.server.refuses h.world.ran) refl in
      rw e (λ u. (refl, forth u), λ (v, n). back n)
  | inr e ↦ rw e (λ u. absurd (not_well (status_of_silence h) u), λ (v, n). absurd (ground arith))
]
