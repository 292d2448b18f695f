-- ===== src/Base/Predicates.antt =====
-- `All` and `Exists` by recursion on a list, which the tactics take apart.
use mathlib.Core.Path.{◌≡◌, refl, ap, ◌∙◌}
use mathlib.Core.Logic.{◌↔◌, ◌⊎◌, inl, inr}
use mathlib.Core.Bool.{Bool, true, false, ◌||◌}
use mathlib.Core.List.{List, [], ◌∷◌, ◌++◌}
use native.Mathlib.Omega.{arith}
use contrato_core.Base.Lists.{any, any-append, select}
use contrato_core.Base.Tests.{Bool-cases}

or_elim : {Q : Type 0} (b c : Bool) → (b ≡ true → Q) → (c ≡ true → Q) → (b || c) ≡ true → Q
or_elim true c k l s = k refl
or_elim false c k l s = l s

module _ {A : Type 0} where
  abbrev pub All : (A → Type 0) → List A → Type 0
  All P [] = Unit {0}
  All P (x ∷ xs) = P x × All P xs

  abbrev pub Exists : (A → Type 0) → List A → Type 0
  Exists P [] = ⊥
  Exists P (x ∷ xs) = P x ⊎ Exists P xs

  pub All-mono : {P Q : A → Type 0} → ((x : A) → P x → Q x) → (xs : List A) → All P xs → All Q xs
  All-mono f [] h = tt
  All-mono f (x ∷ xs) (p, h) = (f x p, All-mono f xs h)

  pub All-mono_both :
      {P Q R : A → Type 0}
      → ((x : A) → P x → Q x → R x)
      → (xs : List A) → All P xs
      → All Q xs
      → All R xs
  All-mono_both f [] h k = tt
  All-mono_both f (x ∷ xs) (p, h) (q, k) = (f x p q, All-mono_both f xs h k)

  pub All-select : (P : A → Type 0) (q : A → Bool) (xs : List A) → All P xs → All P (select q xs)
  All-select P q [] h = tt
  All-select P q (x ∷ xs) (p, h) = elim (Bool-cases (q x)) [
    | inl e ↦ rw e (p, All-select P q xs h)
    | inr e ↦ rw e (All-select P q xs h)
  ]

  pub All-of_select : (q : A → Bool) (xs : List A) → All (λ x. q x ≡ true) (select q xs)
  All-of_select q [] = tt
  All-of_select q (x ∷ xs) = elim (Bool-cases (q x)) [
    | inl e ↦ rw e (e, All-of_select q xs)
    | inr e ↦ rw e (All-of_select q xs)
  ]

  pub Exists-mono :
      {P Q : A → Type 0} → ((x : A) → P x → Q x) → (xs : List A) → Exists P xs → Exists Q xs
  Exists-mono f [] h = elim h [ ]
  Exists-mono f (x ∷ xs) (inl p) = inl (f x p)
  Exists-mono f (x ∷ xs) (inr h) = inr (Exists-mono f xs h)

  any→Exists :
      {P : A → Type 0} (p : A → Bool)
      → ((x : A) → p x ≡ true → P x)
      → (xs : List A) → any p xs ≡ true
      → Exists P xs
  any→Exists p h [] s = cc
  any→Exists p h (x ∷ xs) s =
      or_elim (p x) (any p xs) (λ q. inl (h x q)) (λ q. inr (any→Exists p h xs q)) s

  Exists→any :
      {P : A → Type 0} (p : A → Bool)
      → ((x : A) → P x → p x ≡ true)
      → (xs : List A) → Exists P xs
      → any p xs ≡ true
  Exists→any p h [] e = elim e [ ]
  Exists→any p h (x ∷ xs) (inl q) = rw (h x q) refl
  Exists→any p h (x ∷ xs) (inr e) = ground (arith, Exists→any p h xs e)

  -- A test that decides a predicate decides whether some item has it.
  pub any_iff :
      {P : A → Type 0} (p : A → Bool)
      → ((x : A) → (p x ≡ true) ↔ P x)
      → (xs : List A) → (any p xs ≡ true) ↔ Exists P xs
  any_iff p h xs = (any→Exists p (λ x. (h x).0) xs, Exists→any p (λ x. (h x).1) xs)

  -- The issues found item by item.
  abbrev pub each : {B : Type 0} → (A → List B) → List A → List B
  each f [] = []
  each f (x ∷ xs) = f x ++ each f xs

pub append-eq-nil : {B : Type 0} (xs ys : List B) → (xs ++ ys ≡ []) ↔ ((xs ≡ []) × (ys ≡ []))
append-eq-nil [] ys = (λ h. (refl, h), λ h. h.1)
append-eq-nil (x ∷ xs) ys = (λ h. absurd (ground arith), λ h. absurd (ground arith))

pub each-eq-nil :
    {A B : Type 0} (f : A → List B) (xs : List A) → (each f xs ≡ []) ↔ All (λ x. f x ≡ []) xs
each-eq-nil f [] = (λ _. tt, λ _. refl)
each-eq-nil f (x ∷ xs) =
    let (split, join) = append-eq-nil (f x) (each f xs) in
    let (forth, back) = each-eq-nil f xs in
    (λ h. ((split h).0, forth (split h).1), λ h. join (h.0, back h.1))

pub any-each :
    {A B : Type 0} (p : B → Bool) (f : A → List B) (xs : List A)
    → any p (each f xs) ≡ any (λ x. any p (f x)) xs
any-each p f [] = refl
any-each p f (x ∷ xs) =
    any-append p (f x) (each f xs) ∙ ap (λ b. any p (f x) || b) (any-each p f xs)
