-- ===== src/Api/Tree/Once.antt =====
-- The tree of `get_trace` of agent-observability/api-server/main.py holds every span once.
use open_weave.Prelude.{
  ℕ, ◌+◌, String, Bool, true, ◌≡◌, refl, ap, ◌∙◌, ◌||◌, some, List, [], ◌∷◌, ◌++◌, ◌==◌, any,
  contains, is_some, text_key, arith, Bool-cases, inl, inr, if◌then◌else◌,
}
use open_weave.Prelude.Dict.{Dict, get, put}
use open_weave.Python.{Row}
use open_weave.Api.Traces.{text_of_cell}
use open_weave.Api.Tree.{
  Node, node_of, index_from, index_rows, Forest, place_one, place, keys, assemble,
}
use open_weave.Api.Tree.Placing.{
  Placed, absent, top, below, place_one-Placed, parent_at, parent_at-Placed, contains-keys,
}

-- How often an id stands in a list.
abbrev pub count : String → List String → ℕ
count k [] = 0
count k (x ∷ xs) = (if x == k then 1 else 0) + count k xs

count-append : (k : String) (xs ys : List String) → count k (xs ++ ys) ≡ count k xs + count k ys
count-append k [] ys = omega arith
count-append k (x ∷ xs) ys = omega (arith, count-append k xs ys)

-- How often it stands among the children of the nodes.
abbrev pub child_count : String → Dict String Node → ℕ
child_count k [] = 0
child_count k ((j, n) ∷ d) = count k n.children + child_count k d

-- How often the tree lists a span.
abbrev pub listed : String → Forest → ℕ
listed k f = count k f.roots + child_count k f.nodes

child_count-put :
    (k j : String) (d : Dict String Node) (old new : Node)
    → get j d ≡ some old
    → child_count k (put j new d) + count k old.children ≡ child_count k d + count k new.children
unfolding get put
child_count-put k j [] old new h = cc
child_count-put k j ((i, n) ∷ d) old new h = elim (Bool-cases (i == j)) [
  | inl same ↦ let e : n ≡ old = ground arith in rw same (rw e (omega arith))
  | inr other ↦ rw other (omega (arith, child_count-put k j d old new (ground arith)))
]

abbrev one_if : Bool → ℕ
one_if b = if b then 1 else 0

abbrev is_node : Forest → String → Bool
is_node f id = is_some (parent_at f.nodes id)

listed-Placed :
    {id : String} {f g : Forest} (k : String)
    → Placed id f g
    → is_node f id ≡ true
    → listed k g ≡ listed k f + one_if (id == k)
listed-Placed {id} {f} k (absent missing) h = ground arith
listed-Placed {id} {f} k (top node found is_root) h =
    let new = record node { parent_missing = is_some node.parent } in
    omega (arith, count-append k f.roots (id ∷ []), child_count-put k id f.nodes node new found)
listed-Placed {id} {f} k (below node p parent found named there) h =
    let new = record parent { children = parent.children ++ id ∷ [] } in
    omega (
      arith,
      count-append k parent.children (id ∷ []),
      child_count-put k p f.nodes parent new there,
    )

is_node-Placed :
    {id : String} {f g : Forest} (k : String) → Placed id f g → is_node g k ≡ is_node f k
is_node-Placed k placed = ap is_some (parent_at-Placed k placed)

listed-place :
    (ids : List String) (f : Forest) (k : String)
    → ((i : String) → contains i ids ≡ true → is_node f i ≡ true)
    → listed k (place ids f) ≡ listed k f + count k ids
unfolding place
listed-place [] f k nodes = omega arith
listed-place (id ∷ ids) f k nodes =
    let placed = place_one-Placed id f in
    let later = λ (i : String) (h : contains i ids ≡ true).
      is_node-Placed i placed ∙ nodes i (ground arith) in
    omega (
      arith,
      listed-place ids (place_one id f) k later,
      listed-Placed k placed (nodes id (ground (arith, text_key.same_iff id id))),
    )

-- The nodes of a dictionary have distinct keys.
count-keys_put :
    (k j : String) (n : Node) (d : Dict String Node)
    → count k (keys (put j n d))
      ≡ (if contains j (keys d) then count k (keys d) else count k (keys d) + one_if (j == k))
unfolding put
count-keys_put k j n [] = omega arith
count-keys_put k j n ((i, m) ∷ d) = ground (arith, count-keys_put k j n d, text_key.same_iff i j)

contains-keys_put :
    (k j : String) (n : Node) (d : Dict String Node)
    → contains k (keys (put j n d)) ≡ (contains k (keys d) || j == k)
unfolding put
contains-keys_put k j n [] = ground arith
contains-keys_put k j n ((i, m) ∷ d) = ground (
  arith,
  contains-keys_put k j n d,
  text_key.same_iff i j,
  text_key.same_iff i k,
  text_key.same_iff j k,
)

-- A span of the query's rows.
abbrev pub has_span : String → List Row → Bool
has_span k rows = any (λ row. text_of_cell "id" row == k) rows

contains-keys_index_from :
    (k : String) (rows : List Row) (d : Dict String Node)
    → contains k (keys (index_from rows d)) ≡ (contains k (keys d) || has_span k rows)
unfolding index_from
contains-keys_index_from k [] d = ground arith
contains-keys_index_from k (row ∷ rows) d =
    let id = text_of_cell "id" row in
    contains-keys_index_from k rows (put id (node_of row) d)
    ∙ ground (arith, contains-keys_put k id (node_of row) d)

count-keys_index_from :
    (k : String) (rows : List Row) (d : Dict String Node)
    → count k (keys d) ≡ one_if (contains k (keys d))
    → count k (keys (index_from rows d)) ≡ one_if (contains k (keys (index_from rows d)))
unfolding index_from
count-keys_index_from k [] d h = h
count-keys_index_from k (row ∷ rows) d h =
    let id = text_of_cell "id" row in
    count-keys_index_from k rows (put id (node_of row) d) (
      ground (
        arith,
        count-keys_put k id (node_of row) d,
        contains-keys_put k id (node_of row) d,
        text_key.same_iff id k,
      ))

child_count-put_new :
    (k j : String) (row : Row) (d : Dict String Node)
    → child_count k d ≡ 0
    → child_count k (put j (node_of row) d) ≡ 0
unfolding put node_of
child_count-put_new k j row [] h = refl
child_count-put_new k j row ((i, n) ∷ d) h =
    ground (arith, child_count-put_new k j row d (omega arith))

child_count-index_from :
    (k : String) (rows : List Row) (d : Dict String Node)
    → child_count k d ≡ 0
    → child_count k (index_from rows d) ≡ 0
unfolding index_from
child_count-index_from k [] d h = h
child_count-index_from k (row ∷ rows) d h =
    child_count-index_from k rows (put (text_of_cell "id" row) (node_of row) d)
      (child_count-put_new k (text_of_cell "id" row) row d h)

-- Every span of the trace is listed once in the tree, among the roots or among the children of one
-- node, and nothing else is listed.
pub listed-assemble :
    (rows : List Row) (k : String) → listed k (assemble rows) ≡ (if has_span k rows then 1 else 0)
unfolding assemble index_rows
listed-assemble rows k =
    let d = index_from rows [] in
    let start : Forest = record { nodes = d; roots = [] } in
    let all_nodes : (i : String) → contains i (keys d) ≡ true → is_node start i ≡ true =
      λ i h. ground (arith, contains-keys i d) in
    listed-place (keys d) start k all_nodes
    ∙ ground (
      arith,
      child_count-index_from k rows [] refl,
      count-keys_index_from k rows [] refl,
      contains-keys_index_from k rows [],
    )
