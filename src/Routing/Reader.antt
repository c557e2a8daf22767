-- ===== src/Routing/Reader.antt =====
-- include/routing/table.hpp: `RoutingTableReader`. A text is the list of its bytes.
pub mod Bounds
pub mod RoundTrip
pub mod File
pub mod TrailingSpace
use ispd_exa_engine.Base.{
  ℕ, suc, zero, ◌+◌, ◌-◌, Bool, true, false, Option, none, some, List, [], ◌∷◌, ◌++◌, ◌==◌, ltb,
  if◌then◌else◌, length, set, replicate, u32, Result, ok, err, ◌>>=◌, ◌>>◌, or_fail, stop_if, died,
  bad_alloc, undefined_behaviour, not,
}
use ispd_exa_engine.Routing.{Route, RoutingTable, add_route}
use ispd_exa_engine.Routing.Stoul.{stoul}

pub data ParsingStage : Type 0 where
  source_vertex destination_vertex inner_vertex : ParsingStage

-- The variables of `readRoute`; `none` stands for what has not been assigned yet.
pub record Progress : Type 0 where
  pub stage : ParsingStage
  pub src : Option ℕ
  pub dest : Option ℕ
  pub path_index : ℕ
  pub path : List (Option ℕ)

unfoldable pub count_spaces : List ℕ → ℕ
count_spaces [] = 0
count_spaces (c ∷ cs) = (if c == b' ' then 1 else 0) + count_spaces cs

-- `path[pathIndex++] = value`
unfoldable pub write_path : Progress → ℕ → Result Progress
write_path p value =
    if ltb p.path_index (length p.path)
    then ok
        (record p { path_index = p.path_index + 1; path = set p.path p.path_index (some value) })
    else err undefined_behaviour

-- The `switch` on the stage, with the number that has been read.
unfoldable pub store : ParsingStage → Progress → ℕ → Result Progress
unfolding write_path
store source_vertex p n = ok (record p { src = some (u32 n); stage = destination_vertex })
store destination_vertex p n = ok (record p { dest = some (u32 n); stage = inner_vertex })
store inner_vertex p n = write_path p (u32 n)

unfoldable pub take_part : Progress → List ℕ → Result Progress
take_part p part = stoul part >>= λ n. store p.stage p n

-- The outer loop from a position inside the line: `part` is what the inner loop has collected. A
-- space ends the part, and a line that ends with it has no further part.
unfoldable pub scan : Progress → List ℕ → List ℕ → Result Progress
scan p part [] = take_part p part
scan p part (c ∷ []) = if c == b' ' then take_part p part else take_part p (part ++ c ∷ [])
scan p part (c ∷ d ∷ cs) = elim (c == b' ') [
  | true ↦ take_part p part >>= λ p'. scan p' [] (d ∷ cs)
  | false ↦ scan p (part ++ c ∷ []) (d ∷ cs)
]

abbrev pub initial : ℕ → Progress
initial path_length = record {
  stage = source_vertex;
  src = none;
  dest = none;
  path_index = 0;
  path = replicate path_length none;
}

-- With no space the length is -1 as a `std::size_t`, and `new` throws.
unfoldable pub read_route : List ℕ → Result Progress
read_route line = elim (count_spaces line) [
  | zero ↦ err bad_alloc
  | suc path_length ↦ scan (initial path_length) [] line
]

-- `Route *route = readRoute(routeLine, src, dest); rt->addRoute(src, dest, route);`. Passing an
-- unassigned `src` or `dest` is undefined behaviour.
unfoldable pub read_line : RoutingTable → List ℕ → Result RoutingTable
read_line t line = do
  p ← read_route line
  src ← or_fail p.src undefined_behaviour
  dest ← or_fail p.dest undefined_behaviour
  ok (add_route t src dest (record { length = length p.path; path = p.path }))

-- The lines that `std::getline` gives, one after the other.
unfoldable pub lines : List ℕ → List ℕ → List (List ℕ)
lines line [] = elim line [ [] ↦ [] | c ∷ cs ↦ (c ∷ cs) ∷ [] ]
lines line (c ∷ cs) = elim (c == b'\n') [
  | true ↦ line ∷ lines [] cs
  | false ↦ lines (line ++ c ∷ []) cs
]

unfoldable pub read_lines : RoutingTable → List (List ℕ) → Result RoutingTable
read_lines t [] = ok t
read_lines t (l ∷ ls) = read_line t l >>= λ t'. read_lines t' ls

-- `read`, on the file's bytes, or `none` if it cannot be opened.
unfoldable pub read : Option (List ℕ) → Result RoutingTable
read file = do bytes ← or_fail file died; read_lines [] (lines [] bytes)
