-- ===== src/TestProgram/Table.antt =====
-- The routing table that a program of test reads from the route file that it has written.
use ispd_exa_engine.Base.{
  ℕ, zero, suc, ◌+◌, ◌-◌, ◌*◌, ◌≤◌, ◌<◌, ◌≡◌, refl, sym, ap, ◌∙◌, subst, List, [], ◌∷◌, ◌++◌, map,
  arith, All, Bool, some, none, length, length-append, get_elem?, ok, ◌==◌, Bool-cases, inl, inr,
  if◌then◌else◌, Option, replicate,
}
use ispd_exa_engine.Szudzik.{szudzik}
use ispd_exa_engine.UnorderedMap.{UnorderedMap, insert, find, at}
use ispd_exa_engine.Routing.{Route, RoutingTable, get_route, add_route, index}
use ispd_exa_engine.Routing.Reader.{read}
use ispd_exa_engine.Routing.Reader.RoundTrip.{value, values}
use ispd_exa_engine.Routing.Reader.File.{
  Entry, IsEntry, path_of, route_of, with_entry, table_of, table_of-first, read-table_of, file_of,
  IsEntry-among,
}
use ispd_exa_engine.Routing.Stoul.{digits_value}
use ispd_exa_engine.Network.Routes.{AreShort}
use ispd_exa_engine.TestProgram.RouteFile.{
  entry_at, entries, entries-IsEntry, entries_around, entries-Differs, Fits, shifted,
}
use ispd_exa_engine.TestProgram.ToString.{to_string, digits_value-to_string}

insert-All :
    {V : Type 0} (P : V → Type 0) (k : ℕ) (v : V) (m : UnorderedMap V)
    → P v
    → All (λ entry. P entry.1) m
    → All (λ entry. P entry.1) (insert k v m)
unfolding insert
insert-All P k v [] p h = (p, tt)
insert-All P k v ((j, w) ∷ m) p (q, h) = elim (Bool-cases (j == k)) [
  | inl same ↦ rw same (q, h)
  | inr other ↦ rw other (q, insert-All P k v m p h)
]

AreShort-table_of :
    (longest : ℕ) (es : List Entry) (t : RoutingTable)
    → AreShort longest t
    → All (λ e. length (path_of e) ≤ longest + 1) es
    → AreShort longest (table_of t es)
unfolding table_of add_route
AreShort-table_of longest [] t h hs = h
AreShort-table_of longest (e ∷ es) t h (k, ks) =
    AreShort-table_of longest es (with_entry t e)
      (insert-All (λ r. length r.path ≤ longest + 1)
        (szudzik (value e.source) (value e.destination)) (route_of e) t k h)
      ks

length-values : (ns : List ℕ) → length (values (map to_string ns)) ≡ length ns
length-values [] = refl
length-values (n ∷ ns) = ap suc (length-values ns)

-- What has been written is read back.
get_elem?-values :
    (ns : List ℕ) (more : List (Option ℕ)) (i v : ℕ)
    → get_elem? ns i ≡ some v
    → get_elem? (values (map to_string ns) ++ more) i ≡ some (some v)
get_elem?-values [] more i v e = cc
get_elem?-values (n ∷ ns) more zero v e =
    let same : n ≡ v = ground arith in ap (λ n. some (some n)) (digits_value-to_string n ∙ same)
get_elem?-values (n ∷ ns) more (suc i) v e = get_elem?-values ns more i v e

-- The table has routes from the master to the machines `first`, `first + 2`, …, over these links.
abbrev pub HasRoutes : (inner : ℕ → List ℕ) (first machines : ℕ) → RoutingTable → Type 0
HasRoutes inner first machines table =
    (k : ℕ)
    → k < machines
    → (route : Route) × (get_route table 0 (first + 2 * k) ≡ ok route)
      × ((i v : ℕ) → get_elem? (inner (first + 2 * k)) i ≡ some v → index route i ≡ ok v)

module _ (inner : ℕ → List ℕ) (spaced : Bool) where
  abbrev pub test_table : (first machines : ℕ) → RoutingTable
  test_table first machines = table_of [] (entries inner spaced machines first)

  length-path_of :
      (longest id : ℕ)
      → length (inner id) ≤ longest
      → length (path_of (entry_at inner spaced id)) ≤ longest + 1
  length-path_of longest id h =
      let both =
        length-append (values (map to_string (inner id)))
          (replicate (if spaced then 1 else 0) none) in
      let written = length-values (inner id) in
      let one : length (replicate {A = Option ℕ} (if spaced then 1 else 0) none) ≤ 1 =
        elim (Bool-cases spaced) [ inl s ↦ rw s (omega arith) | inr s ↦ rw s (omega arith) ] in
      omega (arith, both, written, one, h)

  entries-short :
      (longest rounds id : ℕ)
      → ((i : ℕ) → i < rounds → length (inner (id + 2 * i)) ≤ longest)
      → All (λ e. length (path_of e) ≤ longest + 1) (entries inner spaced rounds id)
  entries-short longest zero id h = tt
  entries-short longest (suc rounds) id h =
      let here : id + 2 * 0 ≡ id = omega arith in
      (
        length-path_of longest id
            (subst (λ j. length (inner j) ≤ longest) here (h 0 (omega arith))),
        entries-short longest rounds (id + 2) (λ i lt.
            subst (λ j. length (inner j) ≤ longest) (sym (shifted id i)) (h (suc i) (omega arith))),
      )

  -- The routes have no more than one element more than their links.
  pub test_table-AreShort :
      (longest first machines : ℕ)
      → ((i : ℕ) → i < machines → length (inner (first + 2 * i)) ≤ longest)
      → AreShort longest (test_table first machines)
  test_table-AreShort longest first machines h =
      AreShort-table_of longest (entries inner spaced machines first) [] tt
        (entries-short longest machines first h)

  pub test_table-HasRoutes :
      (first machines : ℕ)
      → ((i : ℕ) → i < machines → Fits inner spaced (first + 2 * i))
      → HasRoutes inner first machines (test_table first machines)
  unfolding get_route at find index digits_value
  test_table-HasRoutes first machines small k lt =
      let id = first + 2 * k in
      let mine = entry_at inner spaced id in
      let before = entries inner spaced k first in
      let after = entries inner spaced (machines - k - 1) (id + 2) in
      let around = entries_around inner spaced k machines first lt in
      let all = subst (All IsEntry) around (entries-IsEntry inner spaced machines first small) in
      let found =
        table_of-first [] before after mine all (IsEntry-among before after mine all)
          (entries-Differs inner spaced k first id (omega arith)) refl in
      let there : value (to_string id) ≡ id = digits_value-to_string id in
      (
        route_of mine,
        subst (λ es. get_route (table_of [] es) 0 id ≡ ok (route_of mine)) (sym around)
            (subst (λ j. get_route (table_of [] (before ++ mine ∷ after)) 0 j ≡ ok (route_of mine))
              there found),
        λ i v h.
            rw (index, get_elem?-values (inner id) (replicate (if spaced then 1 else 0) none) i v h)
              refl,
      )

  -- What a program has written it reads without an error.
  pub read-test_table :
      (route_file : List ℕ) (first machines : ℕ)
      → ((i : ℕ) → i < machines → Fits inner spaced (first + 2 * i))
      → route_file ≡ file_of (entries inner spaced machines first)
      → read (some route_file) ≡ ok (test_table first machines)
  read-test_table route_file first machines small e =
      ap (λ bytes. read (some bytes)) e
      ∙ read-table_of (entries inner spaced machines first)
          (entries-IsEntry inner spaced machines first small)
