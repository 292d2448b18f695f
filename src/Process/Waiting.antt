-- ===== src/Process/Waiting.antt =====
-- The timers and the databases of the process, while `main` runs and when it returns.
use contrato_core.Base.{
  ℕ, ◌≤◌, ◌<◌, ◌≡◌, refl, ◌∙◌, ap, false, ◌⊎◌, inl, inr, ◌∷◌, arith, string_eq,
}
use contrato_core.Storage.Server.{World}
use contrato_core.Storage.Host.{Host, close_db, stop_timer, erase, is_live}
use contrato_core.Storage.Host.Handles.{Same, WithDb, WithDb-trans, close_db-Same, erase_head}
use contrato_core.Storage.Host.Numbers.{erase_missing}
use contrato_core.Store.{SqlStore}
use contrato_core.CommandLine.{Outcome, fatal, finished, serving}
use contrato_core.Process.{without_error, deferred, taken_over}

-- The process exits by `log.Fatalf`, or it returns and has open what it had.
abbrev pub IsReleased : Host → Outcome SqlStore × Host → Type 0
IsReleased h (fatal s, h') = Unit {0}
IsReleased h (finished s, h') = Same h h'
IsReleased h (serving a, h') = Same h h'

-- The same while the first context is live; a server that has stopped has cancelled it.
pub record WithTimer (n : ℕ) (h h' : Host) : Type 0 where
  pub dbs : h'.dbs ≡ h.dbs
  pub txs : h'.txs ≡ h.txs
  pub timers : h'.timers ≡ n ∷ h.timers
  pub made : h.made ≤ h'.made
  pub given : n < h'.made

abbrev pub IsWaiting : ℕ → Host → Outcome SqlStore × Host → Type 0
IsWaiting n h (fatal s, h') = Unit {0}
IsWaiting n h (finished s, h') = WithTimer n h h'
IsWaiting n h (serving a, h') = WithTimer n h h' ⊎ Same h h'

pub WithTimer-Same : {n : ℕ} {h h1 h2 : Host} → WithTimer n h h1 → Same h1 h2 → WithTimer n h h2
WithTimer-Same a b = record {
  dbs = b.dbs ∙ a.dbs;
  txs = b.txs ∙ a.txs;
  timers = b.timers ∙ a.timers;
  made = omega (arith, a.made, b.made);
  given = omega (arith, a.given, b.made);
}

on_world : (h : Host) (w : World) → Same h (record h { world = w })
on_world h w = record { dbs = refl; txs = refl; timers = refl; made = omega arith }

stopped_now : (n : ℕ) (h h' : Host) → WithTimer n h h' → Same h (stop_timer n h')
unfolding stop_timer
stopped_now n h h' w = record {
  dbs = w.dbs;
  txs = w.txs;
  timers = ap (erase n) w.timers ∙ erase_head n h.timers;
  made = w.made;
}

stopped_before :
    (n : ℕ) (h h' : Host) → is_live n h.timers ≡ false → Same h h' → Same h (stop_timer n h')
unfolding stop_timer
stopped_before n h h' gone w = record {
  dbs = w.dbs;
  txs = w.txs;
  timers = ap (erase n) w.timers ∙ erase_missing n h.timers gone;
  made = w.made;
}

pub cancelled :
    (n : ℕ) (h : Host) (o : Outcome SqlStore × Host)
    → is_live n h.timers ≡ false
    → IsWaiting n h o
    → IsReleased h (deferred (stop_timer n) o)
cancelled n h (fatal s, h') gone w = tt
cancelled n h (finished s, h') gone w = stopped_now n h h' w
cancelled n h (serving a, h') gone (inl w) = stopped_now n h h' w
cancelled n h (serving a, h') gone (inr w) = stopped_before n h h' gone w

pub waits : {n : ℕ} {h h' : Host} (o : Outcome SqlStore) → WithTimer n h h' → IsWaiting n h (o, h')
waits (fatal x) w = tt
waits (finished x) w = w
waits (serving a) w = inl w

-- The store is closed by the deferred call.
pub closed_after :
    (n : ℕ) (st : SqlStore) (h h1 h2 : Host) (o : Outcome SqlStore × World)
    → WithTimer n h h1
    → WithDb st.db h1 h2
    → IsWaiting n h (deferred (λ h'. without_error (close_db st.db h')) (taken_over h2 o))
closed_after n st h h1 h2 (fatal x, v) w d = tt
closed_after n st h h1 h2 (finished x, v) w d =
    WithTimer-Same w (close_db-Same (WithDb-trans d (on_world h2 v)))
closed_after n st h h1 h2 (serving a, v) w d =
    inl (WithTimer-Same w (close_db-Same (WithDb-trans d (on_world h2 v))))
