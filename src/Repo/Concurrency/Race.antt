-- ===== src/Repo/Concurrency/Race.antt =====
-- Two writers that expect the same version, one after the other and in step.
use contrato_core.Base.{
  ℕ, suc, ◌+◌, ◌≡◌, ◌≢◌, refl, true, false, none, some, [], ◌∷◌, pos, arith, Eq, ap, ◌∙◌,
}
use contrato_core.Table.History.{last_version, last_version-cons_next}
use contrato_core.Storage.{ok, err, conflict}
use contrato_core.Storage.Server.{World}
use contrato_core.Storage.Exec.{tick}
use contrato_core.Repo.Versioned.{Versioned, IsLawful, max_version}
use contrato_core.Repo.Versioned.Check.{
  check_expected_ok, check_expected_conflict, insert_row_ok, with_row,
}
use contrato_core.Repo.Concurrency.{checking, inserting, finished, Writer, step, run, start}

module _ {R K : Type 0} ⦃e : Eq K⦄ (t : Versioned R K) (l : IsLawful t) where
  -- A writer whose row carries its key and, at any time, the next version of it.
  pub record IsNext (p : Writer t) : Type 0 where
    pub keyed : (w : World) → t.key (p.new w) ≡ p.key
    pub numbered : (w : World) → t.version (p.new w) ≡ max_version t p.key w + 1

  max_version-with_row :
      (p : Writer t) (w : World)
      → IsNext p
      → max_version t p.key (with_row t p.new w) ≡ max_version t p.key w + 1
  max_version-with_row p w n = rw (l.rows-put (p.new w ∷ t.rows w.db) w.db) (
      last_version-cons_next t.key t.version p.key (p.new w) (t.rows w.db) (n.keyed w)
        (n.numbered w))

  step_checks :
      (p : Writer t) (m : ℕ) (w : World)
      → p.expected ≡ some (pos m)
      → max_version t p.key w ≡ m
      → w.server.refuses w.ran ≡ none
      → step t p checking w ≡ (inserting, tick w)
  unfolding step
  step_checks p m w expects current quiet =
      rw expects (rw (check_expected_ok t (pos m) p.key w quiet (ap pos current)) refl)

  step_conflicts :
      (p : Writer t) (m : ℕ) (w : World)
      → p.expected ≡ some (pos m)
      → pos (max_version t p.key w) ≢ pos m
      → w.server.refuses w.ran ≡ none
      → step t p checking w ≡ (finished (err conflict), tick w)
  unfolding step
  step_conflicts p m w expects stale quiet =
      rw expects (rw (check_expected_conflict t (pos m) p.key w quiet stale) refl)

  step_inserts :
      (p : Writer t) (w : World)
      → t.admits w.db (p.new w) ≡ true
      → w.server.refuses w.ran ≡ none
      → step t p inserting w ≡ (finished (ok (p.new w)), with_row t p.new w)
  unfolding step
  step_inserts p w fits quiet = rw (insert_row_ok t p.new w quiet fits) refl

  module _ (p q : Writer t) (m : ℕ) (w : World) (same : q.key ≡ p.key)
      (p_expects : p.expected ≡ some (pos m)) (q_expects : q.expected ≡ some (pos m))
      (np : IsNext p) (nq : IsNext q) (current : max_version t p.key w ≡ m)
      (quiet : (n : ℕ) → w.server.refuses n ≡ none) where
    -- The world in which the row of `p` has been written, `k` statements later.
    abbrev pub written : World → World
    written v = with_row t p.new v

    version_after : (v : World) → v.db ≡ w.db → max_version t q.key (written v) ≡ m + 1
    version_after v db =
        ap (λ k. max_version t k (written v)) same
        ∙ max_version-with_row p v np
        ∙ ap (λ d. last_version t.key t.version p.key (t.rows d) + 1) db
        ∙ ap (λ n. n + 1) current

    stale : pos (max_version t q.key (written (tick w))) ≢ pos m
    stale h = absurd (ground (arith, version_after (tick w) refl))

    pub serial :
        t.admits w.db (p.new (tick w)) ≡ true
        → let s = run t p q (true ∷ true ∷ false ∷ []) (start t w) in
          (s.left ≡ finished (ok (p.new (tick w)))) × (s.right ≡ finished (err conflict))
    unfolding run
    serial fits = rw (step_checks p m w p_expects current (quiet w.ran)) (
        rw (step_inserts p (tick w) fits (quiet (suc w.ran))) (
          rw (step_conflicts q m (written (tick w)) q_expects stale (quiet (suc (suc w.ran))))
            (refl, refl)))

    pub race :
        let w₂ = tick (tick w) in
        t.admits w.db (p.new w₂) ≡ true
        → t.admits (written w₂).db (q.new (written w₂)) ≡ true
        → let s = run t p q (true ∷ false ∷ true ∷ false ∷ []) (start t w) in
          (s.left ≡ finished (ok (p.new w₂)))
          × (s.right ≡ finished (ok (q.new (written w₂))))
          × (t.version (q.new (written w₂)) ≡ m + 2)
    unfolding run
    race fits fits' = rw (step_checks p m w p_expects current (quiet w.ran)) (
        rw
          (step_checks q m (tick w) q_expects (ap (λ k. max_version t k w) same ∙ current)
            (quiet (suc w.ran)))
          (rw (step_inserts p (tick (tick w)) fits (quiet (suc (suc w.ran)))) (
            rw (step_inserts q (written (tick (tick w))) fits' (quiet (suc (suc (suc w.ran)))))
              (refl, refl, nq.numbered _ ∙ omega (arith, version_after (tick (tick w)) refl)))))
