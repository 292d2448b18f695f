-- ===== src/Repo/Objects/Stored.antt =====
-- An object that was put, as the next read of its node finds it.
use contrato_core.Base.{
  ℕ, zero, suc, ◌+◌, ◌≤◌, ◌≡◌, refl, subst, ap, ◌∙◌, String, Bool, true, false, Option, none, some,
  ◌∷◌, ℤ, pos, negsuc, nat_eq, arith, pair_eq, string_eq, if◌then◌else◌,
}
use contrato_core.Storage.{Result, ok, err, not_found, refused, Object, ObjectPutOptions}
use contrato_core.Storage.Server.{World, ObjectRow}
use contrato_core.Storage.Exec.{Exec, tick, pure, fail, gets, insert, answer, continue, ◌>>=◌}
use contrato_core.Storage.Statements.{query_row_ok, scanned}
use contrato_core.Repo.Lawful.{objects-IsLawful}
use contrato_core.Repo.Versioned.{insert_row}
use contrato_core.Repo.Versioned.Appends.{Appended}
use contrato_core.Repo.Versioned.Effects.{latest-Appended}
use contrato_core.Repo.Versioned.Returns.{Returns, Returns-bind, Returns-insert_row, of_returned}
use contrato_core.Repo.Appending.{append_object-Appends}
use contrato_core.Repo.Calls.WellFormed.{Numbered}
use contrato_core.Repo.Contents.{or_empty-nullable_string}
use contrato_core.Repo.Objects.{
  objects, is_expired, or_zero, expiry, next_object, payload, scan_object, append_object,
  put_object, get_by_node_id,
}

-- The content is the caller's, and the etag is that of the content.
abbrev pub HoldsObject : (String → String) → Object → Object → Type 0
HoldsObject etag_of o v =
    (v.tenant_id ≡ o.tenant_id)
    × (v.node_id ≡ o.node_id)
    × (v.bytes ≡ o.bytes)
    × (v.ext_url ≡ o.ext_url)
    × (v.etag ≡ etag_of (payload o))

-- What a read answers when the clock shows `now`.
abbrev found_at : ℕ → Object → World → Result Object × World
found_at now v w = if is_expired now v then (err not_found, w) else (ok v, w)

-- An object that was put at a time, and is read at another: a TTL that is positive counts from the
-- first, and any other never ends.
abbrev pub IsAlive : ℤ → ℕ → ℕ → Type 0
IsAlive (pos (suc n)) put now = now ≤ put + suc n
IsAlive (pos zero) put now = Unit {0}
IsAlive (negsuc n) put now = Unit {0}

alive :
    (ttl : ℤ) (put now : ℕ) (v : Object)
    → v.expires_at ≡ or_zero (expiry put ttl)
    → IsAlive ttl put now
    → is_expired now v ≡ false
alive (pos zero) put now v s h = ground arith
alive (pos (suc n)) put now v s h = ground arith
alive (negsuc n) put now v s h = ground arith

dead :
    (ttl : ℤ) (put now : ℕ) (v : Object)
    → v.expires_at ≡ or_zero (expiry put ttl)
    → ¬ IsAlive ttl put now
    → is_expired now v ≡ true
dead (pos zero) put now v s h = absurd (h tt)
dead (pos (suc n)) put now v s h = ground arith
dead (negsuc n) put now v s h = absurd (h tt)

-- What holds of the returned value and the world that an action leaves.
abbrev OnReturn : {A : Type 0} → (A → World → Type 0) → Result A × World → Type 0
OnReturn P (ok a, w) = P a w
OnReturn P (err x, w) = Unit {0}

record Ends {A : Type 0} (P : A → World → Type 0) (m : Exec A) : Type 0 where
  at : (w : World) → OnReturn P (m w)

module _ {A B : Type 0} {P : B → World → Type 0} where
  Ends-bind : (m : Exec A) (f : A → Exec B) → ((a : A) → Ends P (f a)) → Ends P (m >>= f)
  unfolding ◌>>=◌
  Ends-bind m f h = record { at = λ w. go (m w) }
    where
      go : (o : Result A × World) → OnReturn P (continue o f)
      go (ok a, w) = (h a).at w
      go (err x, w) = tt

module _ (now : ℕ) (v : Object) (w : World) where
  read_alive : is_expired now v ≡ false → found_at now v w ≡ (ok v, w)
  read_alive s = rw s refl

  read_dead : is_expired now v ≡ true → found_at now v w ≡ (err not_found, w)
  read_dead s = rw s refl

module _ (etag_of : String → String) where
  append_object-Returns :
      (o : Object) (opts : ObjectPutOptions)
      → Returns (λ r. HoldsObject etag_of o (scan_object r)) (append_object etag_of o opts)
  unfolding append_object scan_object
  append_object-Returns o opts = Returns-bind _ _ λ _. Returns-bind _ _ λ _. Returns-bind _ _ λ _.
      Returns-bind _ _ λ _. Returns-bind _ _ λ now. Returns-insert_row objects _ (λ w.
        (refl, refl, or_empty-nullable_string o.bytes, or_empty-nullable_string o.ext_url, refl))

  -- The expiry counts from the clock at the last statement, the insert.
  abbrev CountsFrom : ObjectPutOptions → ObjectRow → World → Type 0
  CountsFrom opts r w =
      (k : ℕ) × (w.ran ≡ suc k) × (r.expires_at ≡ expiry (w.server.clock k) opts.ttl)

  insert-CountsFrom :
      (o : Object) (opts : ObjectPutOptions) (w : World)
      → OnReturn
          (CountsFrom opts)
          (insert_row objects (next_object etag_of o (expiry (w.server.clock w.ran) opts.ttl)) w)
  unfolding insert_row insert append_object
  insert-CountsFrom o opts w =
      go (objects.admits w.db (next_object etag_of o (expiry (w.server.clock w.ran) opts.ttl) w))
        (w.server.refuses w.ran)
    where
      go :
          (b : Bool) (refusal : Option String)
          → OnReturn (CountsFrom opts) (
              answer w
                (if b
                  then ok (
                    next_object etag_of o (expiry (w.server.clock w.ran) opts.ttl) w,
                    record w.db {
                      objects =
                          next_object etag_of o (expiry (w.server.clock w.ran) opts.ttl) w
                          ∷ w.db.objects;
                    },
                  )
                  else err (refused (w.server.violation w.ran)))
                refusal)
      go true none = (w.ran, refl, refl)
      go false none = tt
      go true (some x) = tt
      go false (some x) = tt

  now-CountsFrom :
      (o : Object) (opts : ObjectPutOptions)
      → Ends (CountsFrom opts) (
          gets (λ w. w.server.clock w.ran) >>= λ now.
          insert_row objects (next_object etag_of o (expiry now opts.ttl)))
  unfolding ◌>>=◌ gets
  now-CountsFrom o opts = record { at = insert-CountsFrom o opts }

  append_object-CountsFrom :
      (o : Object) (opts : ObjectPutOptions) → Ends (CountsFrom opts) (append_object etag_of o opts)
  unfolding append_object
  append_object-CountsFrom o opts =
      Ends-bind _ _
        λ _. Ends-bind _ _ λ _. Ends-bind _ _ λ _. Ends-bind _ _ λ _. now-CountsFrom o opts

  read_row :
      (w : World) (r : ObjectRow) (o : Result ObjectRow × World)
      → o ≡ (ok r, tick w)
      → continue o (λ r. gets (λ w. w.server.clock w.ran) >>= λ now.
          if is_expired now (scan_object r) then fail not_found else pure (scan_object r))
        ≡ found_at (w.server.clock (suc w.ran)) (scan_object r) (tick w)
  unfolding ◌>>=◌ gets fail pure
  read_row w r o s = rw s (ground arith)

  module _ (o : Object) (opts : ObjectPutOptions) (w w' : World) (v : Object)
      (h : Numbered objects w.db) (written : put_object etag_of o opts w ≡ (ok v, w')) where
    object_row_of :
        (r : ObjectRow) × (append_object etag_of o opts w ≡ (ok r, w')) × (v ≡ scan_object r)
    object_row_of =
        unfold put_object in scanned scan_object (append_object etag_of o opts) w written

    -- Where the rows of every object are numbered 1, 2, …, what `Put` returned holds the given content
    -- and its etag. If the server does not refuse the read, `GetByNodeID` finds it as long as the time
    -- since the clock of the insert is at most the TTL, and nothing afterwards; it always finds it if
    -- the TTL is zero or negative.
    pub get_by_node_id-put_object :
        w'.server.refuses w'.ran ≡ none
        → HoldsObject etag_of o v
          × (k : ℕ) × (w'.ran ≡ suc k)
          × (IsAlive opts.ttl (w'.server.clock k) (w'.server.clock (suc w'.ran))
              → get_by_node_id v.tenant_id v.node_id w' ≡ (ok v, tick w'))
          × (¬ IsAlive opts.ttl (w'.server.clock k) (w'.server.clock (suc w'.ran))
              → get_by_node_id v.tenant_id v.node_id w' ≡ (err not_found, tick w'))
    unfolding scan_object
    get_by_node_id-put_object quiet =
        let (r, s, e) = object_row_of in
        let appended : Appended objects w.db (ok r, w') =
          subst (Appended objects w.db) s ((append_object-Appends etag_of o opts).at w h) in
        let (k, last, until) =
          subst (OnReturn (CountsFrom opts)) s ((append_object-CountsFrom o opts).at w) in
        let now = w'.server.clock (suc w'.ran) in
        let found : get_by_node_id r.tenant_id r.node_id w'
            ≡ found_at now (scan_object r) (tick w') =
          unfold get_by_node_id ◌>>=◌ in
          read_row w' r _ (
            query_row_ok _ w' r quiet
              (latest-Appended objects objects-IsLawful w.db r w' appended)) in
        rw e (
          of_returned _ w w' r (append_object-Returns o opts) s,
          k,
          last,
          λ a.
              found
              ∙ read_alive now _ _ (alive opts.ttl _ now (scan_object r) (ap or_zero until) a),
          λ a. found ∙ read_dead now _ _ (dead opts.ttl _ now (scan_object r) (ap or_zero until) a),
        )
