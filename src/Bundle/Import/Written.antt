-- ===== src/Bundle/Import/Written.antt =====
-- The rows that a loop of the import writes into one table.
use contrato_core.Base.{
  ◌≡◌, ◌≢◌, ◌≤◌, refl, sym, ap, ◌∙◌, String, Bool, true, false, none, some, List, [], ◌∷◌, ◌++◌,
  arith, All, All-mono, All-mono_both, Eq, find, select, select-append, length, length-append,
}
use mathlib.Core.List.{append_assoc, append-nil}
use contrato_core.Table.{newest}
use contrato_core.Table.History.{latest, has_key, newest-append_other, newest-append_only}
use contrato_core.Table.Distinct.{distinct_on, find-distinct_on, length-distinct_on-le}
use contrato_core.Storage.{Result, ok}
use contrato_core.Storage.Server.{World}
use contrato_core.Storage.Exec.{Exec, for_each}
use contrato_core.Storage.Statements.{bind_ok}
use contrato_core.Repo.Versioned.{Versioned, IsLawful}
use contrato_core.Repo.Versioned.Appends.{Appended}
use contrato_core.Repo.Calls.WellFormed.{Numbered}

-- No two items have the same key.
abbrev pub AreDistinct : {B K : Type 0} → (B → K) → List B → Type 0
AreDistinct key_of [] = Unit {0}
AreDistinct key_of (b ∷ bs) = All (λ c. key_of c ≢ key_of b) bs × AreDistinct key_of bs

-- Different keys are different under one tenant.
pub AreDistinct-under :
    {B K : Type 0} (t : String) (key_of : B → K) (bs : List B)
    → AreDistinct key_of bs
    → AreDistinct {K = String × K} (λ b. (t, key_of b)) bs
AreDistinct-under t key_of [] h = tt
AreDistinct-under t key_of (b ∷ bs) (others, h) = (
  All-mono (λ c differs same. differs (ap (λ k. k.1) same)) bs others,
  AreDistinct-under t key_of bs h,
)

-- The rows, the last one first, hold the items.
abbrev pub AreWritten : {B R : Type 0} → (B → R → Type 0) → List B → List R → Type 0
AreWritten Holds [] rows = rows ≡ []
AreWritten {R = R} Holds (b ∷ bs) rows =
    (r : R) × (rest : List R) × (rows ≡ rest ++ r ∷ []) × Holds b r × AreWritten Holds bs rest

-- What a write that succeeds does: it appends a row that holds the item.
abbrev pub Writes :
    {R K B : Type 0} → ⦃e : Eq K⦄ → Versioned R K → (B → R → Type 0) → (B → Exec R) → Type 0
Writes {R = R} {B = B} t Holds write =
    (b : B) (w w' : World) (r : R)
    → Numbered t w.db
    → write b w ≡ (ok r, w')
    → Appended t w.db (ok r, w') × Holds b r

-- The rows that were found hold every item, each under its key, and nothing else.
abbrev pub HasRows :
    {R K B : Type 0} → ⦃e : Eq K⦄ → (R → K) → (B → K) → (B → R → Type 0) → List B → List R → Type 0
HasRows {R = R} key key_of Holds bs found =
    All (λ b. (r : R) × (find (has_key key (key_of b)) found ≡ some r) × Holds b r) bs
    × (length found ≤ length bs)

module _ {R K B : Type 0} ⦃e : Eq K⦄ (t : Versioned R K) (l : IsLawful t)
    (Holds : B → R → Type 0) where
  -- The loop over the items, when it comes to its end.
  pub rows_written :
      (write : B → Exec R) (writes : Writes t Holds write) (bs : List B) (w w' : World)
      → Numbered t w.db
      → for_each write bs w ≡ (ok tt, w')
      → (rows : List R) × (t.rows w'.db ≡ rows ++ t.rows w.db) × AreWritten Holds bs rows
  unfolding for_each
  rows_written write writes [] w w' h s =
      ([], ap (λ (o : Result (Unit {0}) × World). t.rows o.1.db) (sym s), refl)
  rows_written write writes (b ∷ bs) w w' h s =
      let (r, w1, first, others) = bind_ok (write b) _ w s in
      let ((grown, next, _), holds) = writes b w w1 r h first in
      let grown_rows : t.rows w1.db ≡ r ∷ t.rows w.db = ap t.rows grown ∙ l.rows-put _ w.db in
      let h1 : Numbered t w1.db = rw grown_rows (next, h) in
      let (rest, tail, written) = rows_written write writes bs w1 w' h1 others in
      (
        rest ++ r ∷ [],
        tail ∙ ap (λ rs. rest ++ rs) grown_rows ∙ sym (append_assoc rest (r ∷ []) (t.rows w.db)),
        (r, rest, refl, holds, written),
      )

module _ {R B : Type 0} (Holds : B → R → Type 0) where
  length-written :
      (bs : List B) (rows : List R) → AreWritten Holds bs rows → length rows ≡ length bs
  length-written [] rows s = rw s refl
  length-written (b ∷ bs) rows (r, rest, s, _, written) =
      rw (s, length-append rest (r ∷ []), length-written bs rest written) (omega arith)

  -- The rows all pass a test that those which hold an item pass.
  select-written :
      (p : R → Bool) (inside : (b : B) (r : R) → Holds b r → p r ≡ true) (bs : List B)
      (rows : List R)
      → AreWritten Holds bs rows
      → select p rows ≡ rows
  select-written p inside [] rows s = rw s refl
  select-written p inside (b ∷ bs) rows (r, rest, s, holds, written) =
      rw
        (
          s,
          select-append p rest (r ∷ []),
          select-written p inside bs rest written,
          inside b r holds,
        )
        refl

module _ {R K B : Type 0} ⦃e : Eq K⦄ (t : Versioned R K) (key_of : B → K) (Holds : B → R → Type 0)
    (Good : B → Type 0) (keyed : (b : B) (r : R) → Good b → Holds b r → t.key r ≡ key_of b) where
  foreign : (b : B) (r : R) (k : K) → Good b → Holds b r → key_of b ≢ k → has_key t.key k r ≡ false
  foreign b r k good holds other = ground (arith, e.test_iff (t.key r) k, keyed b r good holds)

  -- The latest row of a key that no item has, and of one that an item has.
  latest-other :
      (k : K) (bs : List B) (rows : List R)
      → All Good bs
      → All (λ b. key_of b ≢ k) bs
      → AreWritten Holds bs rows
      → latest t.key t.version k rows ≡ none
  unfolding newest
  latest-other k [] rows good other s = rw s refl
  latest-other k (b ∷ bs) rows (g, good) (differs, other) (r, rest, s, holds, written) = rw s (
      newest-append_other t.version (has_key t.key k) rest r (foreign b r k g holds differs)
      ∙ latest-other k bs rest good other written)

  abbrev IsLatest : List R → B → Type 0
  IsLatest rows b = (r : R) × (latest t.key t.version (key_of b) rows ≡ some r) × Holds b r

  written-IsLatest :
      (bs : List B) (rows : List R)
      → All Good bs
      → AreDistinct key_of bs
      → AreWritten Holds bs rows
      → All (IsLatest rows) bs
  written-IsLatest [] rows good distinct written = tt
  written-IsLatest (b ∷ bs) rows (g, good) (others, distinct) (r, rest, s, holds, written) =
      let own : has_key t.key (key_of b) r ≡ true =
        ground (arith, e.test_iff (t.key r) (key_of b), keyed b r g holds) in
      let found : latest t.key t.version (key_of b) rows ≡ some r = rw s (
        newest-append_only t.version (has_key t.key (key_of b)) rest r
          (latest-other (key_of b) bs rest good others written) own) in
      (
        (r, found, holds),
        All-mono_both (λ c differs (q, at_rest, held). (q, before c q differs at_rest, held)) bs
            others (written-IsLatest bs rest good distinct written),
      )
    where
      before :
          (c : B) (q : R)
          → key_of c ≢ key_of b
          → latest t.key t.version (key_of c) rest ≡ some q
          → latest t.key t.version (key_of c) rows ≡ some q
      before c q differs at_rest = rw s (
          newest-append_other t.version (has_key t.key (key_of c)) rest r
            (foreign b r (key_of c) g holds (λ h. differs (sym h)))
          ∙ at_rest)

  pub written-HasRows :
      (before : K → K → Bool) (p : R → Bool)
      → ((b : B) (r : R) → Holds b r → p r ≡ true)
      → (bs : List B) (rows old rs : List R) → All Good bs
      → AreDistinct key_of bs
      → AreWritten Holds bs rows
      → select p old ≡ []
      → rs ≡ rows ++ old
      → HasRows t.key key_of Holds bs (distinct_on t.key t.version before (select p rs))
  written-HasRows before p inside bs rows old rs good distinct written clear s =
      let chosen : select p rs ≡ rows =
        rw (s, select-append p rows old, clear, select-written Holds p inside bs rows written)
          (append-nil rows) in
      rw chosen (
        All-mono
            (λ b (r, found, holds).
              (r, find-distinct_on t.key t.version before (key_of b) rows ∙ found, holds))
            bs (written-IsLatest bs rows good distinct written),
        omega (
          arith,
          length-written Holds bs rows written,
          length-distinct_on-le t.key t.version before rows,
        ),
      )
