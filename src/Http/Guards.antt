-- ===== src/Http/Guards.antt =====
-- Handlers that keep a property of the database, whatever they answer, with a rule for each way to
-- build one.
use contrato_core.Base.{◌≡◌, subst, sym, String, Bool, true, false}
use contrato_core.Storage.{Err, Result, ok, err}
use contrato_core.Storage.Server.{Db, World}
use contrato_core.Storage.Exec.{Exec}
use contrato_core.Storage.Keeps.{Keeps}
use contrato_core.Repo.Versioned.Appends.{Reads}
use contrato_core.Http.{
  Response, Handler, answer_with, storage_error, internal_error, reply, reply_internal, refuse_if,
  Decoded, decoded, malformed, with_body,
}

pub record Guards {A : Type 0} (P : Db → Type 0) (h : Handler A) : Type 0 where
  pub at : (w : World) → P w.db → P (h w).1.db

-- Code that only reads keeps every property.
pub Keeps-of_Reads : {A : Type 0} (P : Db → Type 0) (m : Exec A) → Reads m → Keeps P m
Keeps-of_Reads P m r = record { at = λ w h. subst P (sym (r.at w)) h }

answered :
    {A B : Type 0} (P : Db → Type 0) (failed : Err → Response B) (good : A → Response B)
    (o : Result A × World)
    → P o.1.db
    → P (answer_with failed good o).1.db
answered P failed good (ok a, w) h = h
answered P failed good (err x, w) h = h

module _ {P : Db → Type 0} where
  module _ {A B : Type 0} where
    pub Guards-reply : (good : A → Response B) (m : Exec A) → Keeps P m → Guards P (reply good m)
    unfolding reply
    Guards-reply good m k = record { at = λ w h. answered P storage_error good (m w) (k.at w h) }

    pub Guards-reply_internal :
        (good : A → Response B) (m : Exec A) → Keeps P m → Guards P (reply_internal good m)
    unfolding reply_internal
    Guards-reply_internal good m k = record {
      at = λ w h. answered P internal_error good (m w) (k.at w h);
    }

    pub Guards-with_body :
        (body : Decoded A) (f : A → Handler B)
        → ((a : A) → Guards P (f a))
        → Guards P (with_body body f)
    unfolding with_body
    Guards-with_body (decoded a) f k = k a
    Guards-with_body (malformed msg) f k = record { at = λ w h. h }

    -- `v, err := …; if err != nil { respond…; return }`, and a handler that uses `v`.
    pub Guards-first :
        (m : Exec A) (f : A → Handler B) (failed : Err → Response B)
        (run : Result A × World → Response B × World)
        → Keeps P m
        → ((a : A) → Guards P (f a))
        → ((a : A) (w : World) → run (ok a, w) ≡ f a w)
        → ((x : Err) (w : World) → run (err x, w) ≡ (failed x, w))
        → Guards P (λ w. run (m w))
    Guards-first m f failed run k g goes fails = record { at = λ w h. go (m w) (k.at w h) }
      where
        go : (o : Result A × World) → P o.1.db → P (run o).1.db
        go (ok a, w) h =
            subst (λ (o : Response B × World). P o.1.db) (sym (goes a w)) ((g a).at w h)
        go (err x, w) h = subst (λ (o : Response B × World). P o.1.db) (sym (fails x w)) h

  module _ {A : Type 0} where
    pub Guards-refuse_if :
        (bad : Bool) (msg : String) (h : Handler A) → Guards P h → Guards P (refuse_if bad msg h)
    unfolding refuse_if
    Guards-refuse_if true msg h g = record { at = λ w p. p }
    Guards-refuse_if false msg h g = g

    pub Guards-answer : (r : Response A) → Guards P (λ w. (r, w))
    Guards-answer r = record { at = λ w h. h }

pub ruleset guard_rules = (Guards-reply, Guards-reply_internal, Guards-with_body, Guards-refuse_if)
