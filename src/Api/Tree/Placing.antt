-- ===== src/Api/Tree/Placing.antt =====
-- Where the loop of `get_trace` of agent-observability/api-server/main.py puts each span: among the
-- roots, or among the children of its parent.
use open_weave.Prelude.{
  String, Bool, true, false, not, ◌≡◌, refl, ap, ◌∙◌, sym, subst, fun_ext, ◌&&◌, ◌||◌, Option, none,
  some, List, [], ◌∷◌, ◌++◌, ◌==◌, contains, contains-append, is_some, text_key, arith,
  Option-cases, inl, inr, if◌then◌else◌,
}
use open_weave.Prelude.Dict.{Dict, get, put, get-put}
use open_weave.Python.{Row, cell}
use open_weave.Api.Traces.{text_of_cell}
use open_weave.Api.Tree.{
  Node, node_of, index_from, index_rows, Forest, add_root, add_child, attach, place_one, place,
  keys, optional_text, assemble,
}

-- The parent that a node names, if there is such a node.
abbrev pub parent_at : Dict String Node → String → Option (Option String)
parent_at nodes id = elim (get id nodes) [ none ↦ none | some n ↦ some n.parent ]

abbrev pub children_at : Dict String Node → String → List String
children_at nodes id = elim (get id nodes) [ none ↦ [] | some n ↦ n.children ]

-- A node whose parent is no node.
abbrev pub is_top : (String → Option (Option String)) → String → Bool
is_top look id = elim (look id) [
  | none ↦ false
  | some parent ↦ elim parent [ none ↦ true | some p ↦ not (is_some (look p)) ]
]

-- A node whose parent is the node `p`.
abbrev pub is_below : (String → Option (Option String)) → String → String → Bool
is_below look p id = elim (look id) [
  | none ↦ false
  | some parent ↦ elim parent [ none ↦ false | some q ↦ q == p && is_some (look q) ]
]

pub is_below-parent :
    (look : String → Option (Option String)) (p k : String)
    → is_below look p k ≡ true
    → look k ≡ some (some p)
is_below-parent look p k h = elim (Option-cases (look k)) [
  | inl missing ↦ ground arith
  | inr (parent, found) ↦ elim (Option-cases parent) [
    | inl alone ↦ ground arith
    | inr (q, named) ↦ ground (arith, text_key.same_iff q p)
  ]
]

-- What placing one node does.
pub data Placed (id : String) (f : Forest) : Forest → Type 0 where
  absent : get id f.nodes ≡ none → Placed id f f
  top :
      (node : Node)
      → get id f.nodes ≡ some node
      → is_top (parent_at f.nodes) id ≡ true
      → Placed id f (add_root id node f)
  below :
      (node : Node) (p : String) (parent : Node)
      → get id f.nodes ≡ some node
      → node.parent ≡ some p
      → get p f.nodes ≡ some parent
      → Placed id f (add_child p parent id f)

attach-Placed :
    (id : String) (node : Node) (f : Forest)
    → get id f.nodes ≡ some node
    → Placed id f (attach id node node.parent f)
unfolding attach
attach-Placed id node f found = elim (Option-cases node.parent) [
  | inl alone ↦
      let e : attach id node node.parent f ≡ add_root id node f = ground arith in
      subst (Placed id f) (sym e) (top node found (ground arith))
  | inr (p, named) ↦ elim (Option-cases (get p f.nodes)) [
    | inl unknown ↦
        let e : attach id node node.parent f ≡ add_root id node f = ground arith in
        subst (Placed id f) (sym e) (top node found (ground arith))
    | inr (parent, there) ↦
        let e : attach id node node.parent f ≡ add_child p parent id f = ground arith in
        subst (Placed id f) (sym e) (below node p parent found named there)
  ]
]

pub place_one-Placed : (id : String) (f : Forest) → Placed id f (place_one id f)
unfolding place_one attach
place_one-Placed id f = elim (Option-cases (get id f.nodes)) [
  | inl missing ↦
      let e : place_one id f ≡ f = ground arith in subst (Placed id f) (sym e) (absent missing)
  | inr (node, found) ↦
      let e : place_one id f ≡ attach id node node.parent f = rw (found, place_one) in
      subst (Placed id f) (sym e) (attach-Placed id node f found)
]

-- Placing one node changes no node's parent.
pub parent_at-Placed :
    {id : String} {f g : Forest} (q : String)
    → Placed id f g
    → parent_at g.nodes q ≡ parent_at f.nodes q
parent_at-Placed q (absent missing) = refl
parent_at-Placed {id} {f} q (top node found is_root) = ground (
  arith,
  get-put id q (record node { parent_missing = is_some node.parent }) f.nodes,
  text_key.same_iff id q,
)
parent_at-Placed {id} {f} q (below node p parent found named there) = ground (
  arith,
  get-put p q (record parent { children = parent.children ++ id ∷ [] }) f.nodes,
  text_key.same_iff p q,
)

-- A node joins the roots exactly if it is a top node, and the children of its parent otherwise.
roots-Placed :
    {id : String} {f g : Forest} (k : String)
    → Placed id f g
    → contains k g.roots ≡ (contains k f.roots || (id == k && is_top (parent_at f.nodes) k))
roots-Placed {id} {f} k (absent missing) = ground (arith, text_key.same_iff id k)
roots-Placed {id} {f} k (top node found is_root) =
    contains-append k f.roots (id ∷ []) ∙ ground (arith, text_key.same_iff id k)
roots-Placed {id} {f} k (below node p parent found named there) =
    ground (arith, text_key.same_iff id k)

children-Placed :
    {id : String} {f g : Forest} (p k : String)
    → Placed id f g
    → contains k (children_at g.nodes p)
      ≡ (contains k (children_at f.nodes p) || (id == k && is_below (parent_at f.nodes) p k))
children-Placed {id} {f} p k (absent missing) = ground (arith, text_key.same_iff id k)
children-Placed {id} {f} p k (top node found is_root) = ground (
  arith,
  text_key.same_iff id k,
  text_key.same_iff id p,
  get-put id p (record node { parent_missing = is_some node.parent }) f.nodes,
)
children-Placed {id} {f} p k (below node q parent found named there) = ground (
  arith,
  text_key.same_iff id k,
  text_key.same_iff q p,
  get-put q p (record parent { children = parent.children ++ id ∷ [] }) f.nodes,
  contains-append k parent.children (id ∷ []),
)

parent_at-place :
    (ids : List String) (f : Forest) (q : String)
    → parent_at (place ids f).nodes q ≡ parent_at f.nodes q
unfolding place
parent_at-place [] f q = refl
parent_at-place (id ∷ ids) f q =
    parent_at-place ids (place_one id f) q ∙ parent_at-Placed q (place_one-Placed id f)

same_parents : (id : String) (f : Forest) → parent_at (place_one id f).nodes ≡ parent_at f.nodes
same_parents id f = fun_ext (λ q. parent_at-Placed q (place_one-Placed id f))

roots-place :
    (ids : List String) (f : Forest) (k : String)
    → contains k (place ids f).roots
      ≡ (contains k f.roots || (contains k ids && is_top (parent_at f.nodes) k))
unfolding place
roots-place [] f k = ground arith
roots-place (id ∷ ids) f k =
    roots-place ids (place_one id f) k
    ∙ rw (same_parents id f) (ground (arith, roots-Placed k (place_one-Placed id f)))

children-place :
    (ids : List String) (f : Forest) (p k : String)
    → contains k (children_at (place ids f).nodes p)
      ≡ (contains k (children_at f.nodes p) || (contains k ids && is_below (parent_at f.nodes) p k))
unfolding place
children-place [] f p k = ground arith
children-place (id ∷ ids) f p k =
    children-place ids (place_one id f) p k
    ∙ rw (same_parents id f) (ground (arith, children-Placed p k (place_one-Placed id f)))

pub contains-keys : (k : String) (d : Dict String Node) → contains k (keys d) ≡ is_some (get k d)
unfolding get
contains-keys k [] = refl
contains-keys k ((j, n) ∷ d) = ground (arith, contains-keys k d)

-- Nodes have no children to begin with.
children_at-index_from :
    (rows : List Row) (d : Dict String Node) (p : String)
    → children_at d p ≡ []
    → children_at (index_from rows d) p ≡ []
unfolding index_from node_of
children_at-index_from [] d p h = h
children_at-index_from (row ∷ rows) d p h =
    let id = text_of_cell "id" row in
    children_at-index_from rows (put id (node_of row) d) p
      (ground (arith, get-put id p (node_of row) d, text_key.same_iff id p))

-- The row of a span; of several with one id the last one counts, though the key allows one.
abbrev pub last_row : String → List Row → Option Row
last_row id [] = none
last_row id (row ∷ rows) = elim (last_row id rows) [
  | some later ↦ some later
  | none ↦ if text_of_cell "id" row == id then some row else none
]

-- The parent that a span names in its row.
abbrev pub parent_in : List Row → String → Option (Option String)
parent_in rows id = elim (last_row id rows) [
  | none ↦ none
  | some row ↦ some (optional_text (cell "parent_observation_id" row))
]

abbrev row_or : Option Row → Option Node → Option Node
row_or none n = n
row_or (some row) n = some (node_of row)

get-index_from :
    (rows : List Row) (d : Dict String Node) (k : String)
    → get k (index_from rows d) ≡ row_or (last_row k rows) (get k d)
unfolding index_from
get-index_from [] d k = refl
get-index_from (row ∷ rows) d k =
    let id = text_of_cell "id" row in
    get-index_from rows (put id (node_of row) d) k
    ∙ ground (arith, get-put id k (node_of row) d, text_key.same_iff id k)

pub parent_at-index_rows :
    (rows : List Row) (k : String) → parent_at (index_rows rows) k ≡ parent_in rows k
unfolding index_rows node_of get
parent_at-index_rows rows k = ground (arith, get-index_from rows [] k)

module _ (rows : List Row) where
  same_look : parent_at (index_rows rows) ≡ parent_in rows
  same_look = fun_ext (parent_at-index_rows rows)

  pub assembled_roots : (k : String) → contains k (assemble rows).roots ≡ is_top (parent_in rows) k
  unfolding assemble
  assembled_roots k =
      let d = index_rows rows in
      roots-place (keys d) (record { nodes = d; roots = [] }) k
      ∙ ground (arith, contains-keys k d)
      ∙ ap (λ look. is_top look k) same_look

  pub assembled_children :
      (p k : String)
      → contains k (children_at (assemble rows).nodes p) ≡ is_below (parent_in rows) p k
  unfolding assemble index_rows get
  assembled_children p k =
      let d = index_rows rows in
      children-place (keys d) (record { nodes = d; roots = [] }) p k
      ∙ ground (arith, contains-keys k d, children_at-index_from rows [] p refl)
      ∙ ap (λ look. is_below look p k) same_look

  pub assembled_parents : (k : String) → parent_at (assemble rows).nodes k ≡ parent_in rows k
  unfolding assemble
  assembled_parents k =
      let d = index_rows rows in
      parent_at-place (keys d) (record { nodes = d; roots = [] }) k ∙ parent_at-index_rows rows k
