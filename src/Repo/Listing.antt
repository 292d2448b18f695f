-- ===== src/Repo/Listing.antt =====
-- What the listing operations return, and how much.
use contrato_core.Base.{
  ℕ, ◌≤◌, ◌≡◌, refl, ap, ◌∙◌, String, Bool, true, none, List, [], ◌∷◌, arith, take, take_all,
  select, length, length-take-le, length-map, find, string_eq, pair_eq, ℤ, pos, negsuc, map, ◌&&◌,
  ◌==◌, if◌then◌else◌, All, All-of_select,
}
use contrato_core.Table.{newest}
use contrato_core.Table.Distinct.{
  distinct_on, find-distinct_on, length-distinct_on-le, distinct_on-All,
}
use contrato_core.Storage.{Page, ok}
use contrato_core.Storage.Server.{ContractRow, World}
use contrato_core.Storage.Exec.{tick}
use contrato_core.Storage.Statements.{OnSuccess, query_ok, query_returns}
use contrato_core.Repo.ModelVersions
use contrato_core.Repo.ModelVersions.{default_to, page_limit}
use contrato_core.Repo.Graph.{edge_limit, out_edges}
use contrato_core.Repo.Contracts.{
  contract_key, contract_version, contract_before, has_type, contract_limit, scan_contract,
  list_by_type,
}

-- The columns of a row, in the words of the caller: no domain stands for `contract`.
abbrev pub stands_in : String → String → String → ContractRow → Bool
stands_in t domain y r =
    r.tenant_id == t
    && ((if domain == "" then r.domain == "contract" else r.domain == domain) && r.type == y)

select-cong :
    {R : Type 0} {p q : R → Bool}
    → ((r : R) → p r ≡ q r)
    → (rs : List R) → select p rs ≡ select q rs
select-cong h [] = refl
select-cong h (r ∷ rs) = rw (h r, select-cong h rs) refl

has_type-stands_in :
    (t domain y : String) (r : ContractRow)
    → has_type t (default_to "contract" domain) y r ≡ stands_in t domain y r
has_type-stands_in t domain y r = ground arith

-- If the rows of a tenant, a domain and a type are no more than the limit of the page, where no domain
-- stands for `contract`, and the server does not refuse the query, the list that `ListByType` returns
-- has for each id the row with the highest version among these rows of the table, and none if there is
-- no such row; and no row of the list has another tenant, domain or type.
pub list_by_type-latest :
    (t domain y : String) (page : Page) (w : World)
    → w.server.refuses w.ran ≡ none
    → length (select (stands_in t domain y) w.db.contracts) ≤ contract_limit page
    → (rows : List ContractRow) × (list_by_type t domain y page w
        ≡ (ok (map scan_contract rows), tick w))
      × ((id : String)
          → find (λ r. r.tenant_id == t && r.id == id) rows
            ≡ newest contract_version
                (λ r. r.tenant_id == t && r.id == id)
                (select (stands_in t domain y) w.db.contracts))
      × All (λ r. stands_in t domain y r ≡ true) rows
unfolding list_by_type
list_by_type-latest t domain y page w quiet few =
    let fits = select (stands_in t domain y) w.db.contracts in
    let before = contract_before w.server.before in
    let rows : List ContractRow = distinct_on contract_key contract_version before fits in
    (
      rows,
      query_ok _ w quiet
          ∙ ap
              (λ rs. (
                ok (
                    map scan_contract (
                      take (contract_limit page)
                        (distinct_on contract_key contract_version before rs))),
                tick w,
              ))
              (select-cong (has_type-stands_in t domain y) w.db.contracts)
          ∙ ap (λ rs. (ok (map scan_contract rs), tick w))
              (take_all (contract_limit page) rows
                (omega (arith, length-distinct_on-le contract_key contract_version before fits))),
      λ id. find-distinct_on contract_key contract_version before (t, id) fits,
      distinct_on-All contract_key contract_version before _ fits
          (All-of_select (stands_in t domain y) w.db.contracts),
    )

edge_limit-le : (page : Page) → edge_limit page ≤ 500
edge_limit-le page = go page.cursor page.limit
  where
    go : (c : String) (z : ℤ) → edge_limit (record { cursor = c; limit = z }) ≤ 500
    go c (pos n) = ground arith
    go c (negsuc n) = omega arith

contract_limit-le : (page : Page) → contract_limit page ≤ 200
contract_limit-le page = go page.cursor page.limit
  where
    go : (c : String) (z : ℤ) → contract_limit (record { cursor = c; limit = z }) ≤ 200
    go c (pos n) = ground arith
    go c (negsuc n) = omega arith

page_limit-le : (page : Page) → page_limit page ≤ 200
page_limit-le page = go page.cursor page.limit
  where
    go : (c : String) (z : ℤ) → page_limit (record { cursor = c; limit = z }) ≤ 200
    go c (pos n) = ground arith
    go c (negsuc n) = omega arith

bounded : {A : Type 0} {m : ℕ} (n : ℕ) (xs : List A) → n ≤ m → length (take n xs) ≤ m
bounded n xs h = omega (arith, length-take-le n xs)

bounded_map :
    {A B : Type 0} {m : ℕ} (g : A → B) (n : ℕ) (xs : List A)
    → n ≤ m
    → length (map g (take n xs)) ≤ m
bounded_map g n xs h = omega (arith, length-map g (take n xs), length-take-le n xs)

-- Whatever limit is asked for, a page has at most 500 edges, 200 contracts, or 200 model versions.
pub pages_bounded :
    (t a b c : String) (page : Page) (w : World)
    → OnSuccess (λ xs. length xs ≤ 500) (out_edges t a b c page w).0
      × OnSuccess (λ xs. length xs ≤ 200) (list_by_type t a b page w).0
      × OnSuccess (λ xs. length xs ≤ 200) (ModelVersions.list t a page w).0
unfolding out_edges list_by_type ModelVersions.list
pages_bounded t a b c page w = (
  query_returns (λ xs. length xs ≤ 500) _ w (bounded (edge_limit page) _ (edge_limit-le page)),
  query_returns (λ xs. length xs ≤ 200) _ w
      (bounded_map scan_contract (contract_limit page) _ (contract_limit-le page)),
  query_returns (λ xs. length xs ≤ 200) _ w (bounded (page_limit page) _ (page_limit-le page)),
)
