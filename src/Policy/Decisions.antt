-- ===== src/Policy/Decisions.antt =====
-- `Eval` against a rule on the answers of all policies.
use contrato_core.Base.{
  String, ◌≡◌, refl, sym, ◌∙◌, ap, Bool, true, false, Option, none, List, [], ◌∷◌, ◌++◌, map, any,
  ◌||◌, string_eq,
}
use mathlib.Core.List.{append_assoc, append-nil}
use contrato_core.Json.{Json, Map, at, as_array}
use contrato_core.Resolution.{Decision, Obligation, ResolvedPolicy, Resolved, ContractRequest}
use contrato_core.Policy.{
  Evaluated, done, failed, RegoResult, no_decision, action_of, reasons_of, obligations_of, or_nil,
  merge_decision, output_of, eval_from, eval, node_blobs, build_input, ◌>>=◌,
}
use contrato_core.Policy.Merge.{combined, merge_all, merge_all-combined, is_deny}

abbrev pub reasons_in : List Map → List String
reasons_in [] = []
reasons_in (out ∷ outs) = reasons_of (or_nil (as_array (at "reasons" out))) ++ reasons_in outs

abbrev pub obligations_in : List Map → List Obligation
obligations_in [] = []
obligations_in (out ∷ outs) =
    obligations_of (or_nil (as_array (at "obligations" out))) ++ obligations_in outs

-- The decision that a list of answers stands for.
abbrev pub decided : List Map → Decision
decided outs = record {
  action = combined (map action_of outs);
  reasons = reasons_in outs;
  obligations = obligations_in outs;
  facts = none;
}

abbrev merge_each : Decision → List Map → Decision
merge_each d [] = d
merge_each d (out ∷ outs) = merge_each (merge_decision d out) outs

merge_each-eq :
    (d : Decision) (outs : List Map)
    → merge_each d outs ≡ record {
      action = merge_all d.action (map action_of outs);
      reasons = d.reasons ++ reasons_in outs;
      obligations = d.obligations ++ obligations_in outs;
      facts = d.facts;
    }
merge_each-eq d [] = rw (append-nil d.reasons, append-nil d.obligations) refl
merge_each-eq d (out ∷ outs) =
    merge_each-eq (merge_decision d out) outs ∙ (unfold merge_decision in simp append_assoc)

merge_each-decided : (outs : List Map) → merge_each no_decision outs ≡ decided outs
merge_each-decided outs =
    merge_each-eq no_decision outs ∙ rw (merge_all-combined (map action_of outs)) refl

abbrev pub is_failed : {A : Type 0} → Evaluated A → Bool
is_failed (done a) = false
is_failed (failed x) = true

module _ (unmarshal : String → Option Map)
    (rego : String → String → String → Json → RegoResult) where
  -- The answers of all policies in their order, or the first failure.
  abbrev pub outputs : (String → Option Map) → Json → List ResolvedPolicy → Evaluated (List Map)
  outputs blobs input [] = done []
  outputs blobs input (pol ∷ pols) = output_of unmarshal rego blobs input pol >>= λ out.
      outputs blobs input pols >>= λ outs. done (out ∷ outs)

  eval_from-outputs :
      (blobs : String → Option Map) (input : Json) (d : Decision) (pols : List ResolvedPolicy)
      → eval_from unmarshal rego blobs input d pols
        ≡ (outputs blobs input pols >>= λ outs. done (merge_each d outs))
  unfolding eval_from
  eval_from-outputs blobs input d [] = refl
  eval_from-outputs blobs input d (pol ∷ pols) =
      go (output_of unmarshal rego blobs input pol)
        (λ out. eval_from-outputs blobs input (merge_decision d out) pols)
    where
      regroup :
          (out : Map) (o : Evaluated (List Map))
          → (o >>= λ outs. done (merge_each (merge_decision d out) outs))
            ≡ (o >>= (λ outs. done (out ∷ outs)) >>= λ outs. done (merge_each d outs))
      regroup out (done outs) = refl
      regroup out (failed x) = refl

      go :
          (o : Evaluated Map)
          → ((out : Map)
              → eval_from unmarshal rego blobs input (merge_decision d out) pols ≡ (
                  outputs blobs input pols >>= λ outs.
                  done (merge_each (merge_decision d out) outs)))
          → (o >>= λ out. eval_from unmarshal rego blobs input (merge_decision d out) pols) ≡ (
              o >>= (λ out. outputs blobs input pols >>= λ outs. done (out ∷ outs)) >>= λ outs.
              done (merge_each d outs))
      go (done out) rest = rest out ∙ regroup out (outputs blobs input pols)
      go (failed x) rest = refl

  -- All the answers for a request.
  abbrev pub answers : ContractRequest → Resolved → Evaluated (List Map)
  answers req r =
      outputs (node_blobs unmarshal rego r.nodes) (build_input unmarshal rego req r) r.policies

  -- `Eval` fails with the failure of the first policy that gives no answer. If all give one, its
  -- action is `deny` if an answer says so and the first action that is not empty otherwise, and its
  -- reasons and obligations are those of all answers, in the order of the policies.
  pub eval-decided :
      (req : ContractRequest) (r : Resolved)
      → eval unmarshal rego req r ≡ (answers req r >>= λ outs. done (decided outs))
  unfolding eval
  eval-decided req r = eval_from-outputs _ _ no_decision r.policies ∙ decide (answers req r)
    where
      decide :
          (o : Evaluated (List Map))
          → (o >>= λ outs. done (merge_each no_decision outs)) ≡ (o >>= λ outs. done (decided outs))
      decide (done outs) = ap done (merge_each-decided outs)
      decide (failed x) = refl

  abbrev pub has_failing : (String → Option Map) → Json → List ResolvedPolicy → Bool
  has_failing blobs input pols =
      any (λ pol. is_failed (output_of unmarshal rego blobs input pol)) pols

  outputs_failing :
      (blobs : String → Option Map) (input : Json) (pols : List ResolvedPolicy)
      → has_failing blobs input pols ≡ is_failed (outputs blobs input pols)
  outputs_failing blobs input [] = refl
  outputs_failing blobs input (pol ∷ pols) =
      go (output_of unmarshal rego blobs input pol) (outputs blobs input pols)
        (outputs_failing blobs input pols)
    where
      go :
          (o : Evaluated Map) (os : Evaluated (List Map))
          → has_failing blobs input pols ≡ is_failed os
          → (is_failed o || has_failing blobs input pols)
            ≡ is_failed (o >>= λ out. os >>= λ outs. done (out ∷ outs))
      go (failed x) os s = refl
      go (done out) (done outs) s = s
      go (done out) (failed x) s = s

  -- `Eval` returns an error exactly if some policy of the request gives no answer.
  pub is_failed-eval :
      (req : ContractRequest) (r : Resolved)
      → is_failed (eval unmarshal rego req r)
        ≡ has_failing
            (node_blobs unmarshal rego r.nodes)
            (build_input unmarshal rego req r)
            r.policies
  is_failed-eval req r =
      ap is_failed (eval-decided req r)
      ∙ same (answers req r)
      ∙ sym (outputs_failing _ _ r.policies)
    where
      same :
          (o : Evaluated (List Map)) → is_failed (o >>= λ outs. done (decided outs)) ≡ is_failed o
      same (done outs) = refl
      same (failed x) = refl

  -- If all policies answer and one of the answers has the action `deny`, the decision that `Eval`
  -- makes is `deny`.
  pub eval_deny :
      (req : ContractRequest) (r : Resolved) (outs : List Map) (d : Decision)
      → answers req r ≡ done outs
      → any is_deny (map action_of outs) ≡ true
      → eval unmarshal rego req r ≡ done d
      → d.action ≡ "deny"
  eval_deny req r outs d answered denied s =
      sym
        (action_eq (sym s ∙ eval-decided req r ∙ ap (λ o. o >>= λ os. done (decided os)) answered))
      ∙ rw denied refl
    where
      action_eq : done d ≡ done (decided outs) → (decided outs).action ≡ d.action
      action_eq p = ap (λ (x : Decision). x.action) (sym (inner p))
        where
          inner : done d ≡ done (decided outs) → d ≡ decided outs
          inner p = cc
