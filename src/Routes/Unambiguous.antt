-- ===== src/Routes/Unambiguous.antt =====
-- At most one route fits a request, so that it does not matter how the router chooses.
use contrato_core.Base.{
  ◌≤◌, ◌≡◌, refl, String, Bool, true, false, not, ◌&&◌, List, [], ◌∷◌, any, select, length, ◌==◌,
  string_eq, eq_iff, arith, Bool-cases, inl, inr,
}
use contrato_core.Access.{Features}
use contrato_core.Routes.{Segment, fixed, param, Route, routes, routes_with}

-- A segment that is fixed stands for itself, and a parameter for any text.
abbrev pub fits : List Segment → List String → Bool
fits [] [] = true
fits [] (x ∷ xs) = false
fits (p ∷ ps) [] = false
fits (fixed s ∷ ps) (x ∷ xs) = let rest = fits ps xs in s == x && rest
fits (param name ∷ ps) (x ∷ xs) = fits ps xs

abbrev pub accepts : String → List String → Route → Bool
accepts method path r = r.method == method && fits r.pattern path

-- Some path fits both patterns.
abbrev meet : List Segment → List Segment → Bool
meet [] [] = true
meet [] (q ∷ qs) = false
meet (p ∷ ps) [] = false
meet (fixed s ∷ ps) (fixed t ∷ qs) = let rest = meet ps qs in s == t && rest
meet (fixed s ∷ ps) (param m ∷ qs) = meet ps qs
meet (param n ∷ ps) (fixed t ∷ qs) = meet ps qs
meet (param n ∷ ps) (param m ∷ qs) = meet ps qs

abbrev clash : Route → Route → Bool
clash r s = r.method == s.method && meet r.pattern s.pattern

abbrev no_clash : List Route → Bool
no_clash [] = true
no_clash (r ∷ rs) = not (any (clash r) rs) && no_clash rs

fits-meet :
    (ps qs : List Segment) (xs : List String)
    → fits ps xs ≡ true
    → fits qs xs ≡ true
    → meet ps qs ≡ true
fits-meet [] [] [] h k = refl
fits-meet [] [] (x ∷ xs) h k = refl
fits-meet [] (q ∷ qs) [] h k = absurd (ground arith)
fits-meet [] (q ∷ qs) (x ∷ xs) h k = absurd (ground arith)
fits-meet (p ∷ ps) qs [] h k = absurd (ground arith)
fits-meet (p ∷ ps) [] (x ∷ xs) h k = absurd (ground arith)
fits-meet (fixed s ∷ ps) (fixed t ∷ qs) (x ∷ xs) h k =
    ground (arith, eq_iff s x, eq_iff t x, eq_iff s t, fits-meet ps qs xs)
fits-meet (fixed s ∷ ps) (param m ∷ qs) (x ∷ xs) h k = ground (arith, fits-meet ps qs xs)
fits-meet (param n ∷ ps) (fixed t ∷ qs) (x ∷ xs) h k = ground (arith, fits-meet ps qs xs)
fits-meet (param n ∷ ps) (param m ∷ qs) (x ∷ xs) h k = fits-meet ps qs xs h k

module _ (method : String) (path : List String) where
  alone :
      (r : Route) (rs : List Route)
      → accepts method path r ≡ true
      → any (clash r) rs ≡ false
      → any (accepts method path) rs ≡ false
  alone r [] h clear = refl
  alone r (s ∷ rs) h clear = ground (
    arith,
    fits-meet r.pattern s.pattern path,
    eq_iff r.method method,
    eq_iff s.method method,
    eq_iff r.method s.method,
    alone r rs h,
  )

  select_none :
      (rs : List Route)
      → any (accepts method path) rs ≡ false
      → length (select (accepts method path) rs) ≡ 0
  select_none [] h = refl
  select_none (r ∷ rs) h = ground (arith, select_none rs)

  at_most_one :
      (rs : List Route) → no_clash rs ≡ true → length (select (accepts method path) rs) ≤ 1
  at_most_one [] h = omega arith
  at_most_one (r ∷ rs) h = elim (Bool-cases (accepts method path r)) [
    | inl b ↦ rw b (ground (arith, alone r rs b, select_none rs))
    | inr b ↦ rw b (at_most_one rs (ground arith))
  ]

unambiguous : (a b c : Bool) → no_clash (routes_with a b c) ≡ true
unambiguous true true true = refl
unambiguous true true false = refl
unambiguous true false true = refl
unambiguous true false false = refl
unambiguous false true true = refl
unambiguous false true false = refl
unambiguous false false true = refl
unambiguous false false false = refl

-- Whatever features are enabled, at most one route fits a request, a parameter of a pattern standing for
-- any text.
pub routes-fit :
    (f : Features) (has_db : Bool) (method : String) (path : List String)
    → length (select (accepts method path) (routes f has_db)) ≤ 1
routes-fit f has_db method path =
    at_most_one method path (routes f has_db)
      (unambiguous (f.frontier && has_db) (f.waypoint && has_db) f.meridian)
