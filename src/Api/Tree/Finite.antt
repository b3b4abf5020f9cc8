-- ===== src/Api/Tree/Finite.antt =====
-- The tree of `get_trace` of agent-observability/api-server/main.py can be written out: below a root
-- no span stands above itself, whatever parents the spans name.
use open_weave.Prelude.{
  ℕ, zero, suc, ◌+◌, ◌≤◌, String, true, false, ◌≡◌, refl, ap, ◌∙◌, sym, Option, none, some, List,
  [], ◌∷◌, ◌==◌, contains, keep, length, subst, is_some, text_key, arith, Bool-cases, Option-cases,
  inl, inr, if◌then◌else◌,
}
use open_weave.Prelude.Dict.{Dict, get}
use open_weave.Prelude.Result.{ok}
use open_weave.Python.{Value, Row, Python}
use open_weave.Auth.{AuthContext}
use open_weave.Api.{Database}
use open_weave.Api.Sql.{Postgres, first, order_by}
use open_weave.Api.Tree.{
  Node, Forest, keys, assemble, by_id, by_trace, by_start, view_of, TraceView, get_trace,
  render_all, render_node, trace_answer,
}
use open_weave.Api.Tree.Placing.{
  children_at, is_top, parent_in, contains-keys, assembled_roots, assembled_children,
  assembled_parents, is_below-parent,
}

abbrev Distinct : List String → Type 0
Distinct [] = Unit
Distinct (x ∷ xs) = (contains x xs ≡ false) × Distinct xs

erase : String → List String → List String
erase a [] = []
erase a (x ∷ xs) = let rest = erase a xs in if x == a then xs else x ∷ rest

length-erase :
    (a : String) (xs : List String) → contains a xs ≡ true → suc (length (erase a xs)) ≡ length xs
unfolding erase
length-erase a [] h = cc
length-erase a (x ∷ xs) h = ground (arith, length-erase a xs)

contains-erase :
    (a b : String) (xs : List String)
    → (b == a) ≡ false
    → contains b xs ≡ true
    → contains b (erase a xs) ≡ true
unfolding erase
contains-erase a b [] n h = h
contains-erase a b (x ∷ xs) n h = ground (
  arith,
  contains-erase a b xs n,
  text_key.same_iff x a,
  text_key.same_iff x b,
  text_key.same_iff b a,
)

-- Distinct members of a list are no more than it has.
length-le-members :
    (xs ys : List String)
    → Distinct xs
    → ((x : String) → contains x xs ≡ true → contains x ys ≡ true)
    → length xs ≤ length ys
length-le-members [] ys d h = omega arith
length-le-members (x ∷ xs) ys (fresh, d) h =
    let mine = h x (ground (arith, text_key.same_iff x x)) in
    omega (arith, length-erase x ys mine, length-le-members xs (erase x ys) d rest)
  where
    rest : (z : String) → contains z xs ≡ true → contains z (erase x ys) ≡ true
    rest z e = contains-erase x z ys (ground (arith, text_key.same_iff z x)) (h z (ground arith))

-- A span, its parent, and so on up to a span at the top.
abbrev IsChain : (String → Option (Option String)) → List String → Type 0
IsChain look [] = ⊥
IsChain look (k ∷ []) = is_top look k ≡ true
IsChain look (k ∷ p ∷ vs) = (look k ≡ some (some p)) × IsChain look (p ∷ vs)

is_some-IsChain :
    (look : String → Option (Option String)) (vs : List String)
    → IsChain look vs
    → (x : String) → contains x vs ≡ true
    → is_some (look x) ≡ true
is_some-IsChain look [] h x e = elim h [ ]
is_some-IsChain look (k ∷ []) h x e = ground (arith, text_key.same_iff k x)
is_some-IsChain look (k ∷ p ∷ vs) h x e =
    ground (arith, text_key.same_iff k x, is_some-IsChain look (p ∷ vs) h.1 x)

-- The parent of a span of the chain comes later in it.
parent-later :
    (look : String → Option (Option String)) (k : String) (vs : List String)
    → IsChain look (k ∷ vs)
    → (x q : String) → contains x (k ∷ vs) ≡ true
    → look x ≡ some (some q)
    → is_some (look q) ≡ true
    → contains q vs ≡ true
parent-later look k [] h x q e named known = ground (arith, text_key.same_iff k x)
parent-later look k (p ∷ vs) h x q e named known =
    ground (arith, text_key.same_iff k x, text_key.same_iff p q, parent-later look p vs h.1 x q)

-- A child of the first span of the chain is not in the chain.
child-fresh :
    (look : String → Option (Option String)) (k : String) (vs : List String)
    → IsChain look (k ∷ vs)
    → Distinct (k ∷ vs)
    → (c : String) → look c ≡ some (some k)
    → contains c (k ∷ vs) ≡ false
child-fresh look k vs h d c named = elim (Bool-cases (contains c (k ∷ vs))) [
  | inr fresh ↦ fresh
  | inl again ↦
      let known = is_some-IsChain look (k ∷ vs) h k (ground (arith, text_key.same_iff k k)) in
      let later = parent-later look k vs h c k again named known in cc
]

render_all-some :
    (write : String → Option Value) (ids : List String)
    → ((i : String) → contains i ids ≡ true → is_some (write i) ≡ true)
    → is_some (render_all write ids) ≡ true
unfolding render_all
render_all-some write [] h = refl
render_all-some write (i ∷ ids) h =
    ground (arith, h i (ground (arith, text_key.same_iff i i)), render_all-some write ids rest)
  where
    rest : (z : String) → contains z ids ≡ true → is_some (write z) ≡ true
    rest z e = h z (ground arith)

length-keys : (d : Dict String Node) → length (keys d) ≡ length d
length-keys [] = refl
length-keys ((k, n) ∷ d) = ap suc (length-keys d)

module _ (py : Python) (rows : List Row) where
  abbrev forest : Forest
  forest = assemble rows

  abbrev look : String → Option (Option String)
  look = parent_in rows

  -- A chain is no longer than there are spans.
  length-chain :
      (vs : List String) → IsChain look vs → Distinct vs → length vs ≤ length forest.nodes
  length-chain vs h d =
      omega (arith, length-le-members vs (keys forest.nodes) d known, length-keys forest.nodes)
    where
      known : (x : String) → contains x vs ≡ true → contains x (keys forest.nodes) ≡ true
      known x e =
          contains-keys x forest.nodes
          ∙ ground (arith, is_some-IsChain look vs h x e, assembled_parents rows x)

  -- Below a chain of spans there are as many levels left as spans outside of it, at most.
  render_node-some :
      (fuel : ℕ) (k : String) (vs : List String)
      → IsChain look (k ∷ vs)
      → Distinct (k ∷ vs)
      → length forest.nodes ≤ fuel + length vs
      → is_some (render_node py fuel forest.nodes k) ≡ true
  unfolding render_node
  render_node-some zero k vs h d enough = absurd (omega (arith, length-chain (k ∷ vs) h d))
  render_node-some (suc fuel) k vs h d enough =
      let here = is_some-IsChain look (k ∷ vs) h k (ground (arith, text_key.same_iff k k)) in
      elim (Option-cases (get k forest.nodes)) [
        | inl missing ↦ ground (arith, assembled_parents rows k)
        | inr (n, found) ↦ ground (
          arith,
          render_all-some (render_node py fuel forest.nodes) n.children
              (below_k (λ c. render_node-some fuel c (k ∷ vs)) n found),
        )
      ]
    where
      below_k :
          ((c : String)
            → IsChain look (c ∷ k ∷ vs)
            → Distinct (c ∷ k ∷ vs)
            → length forest.nodes ≤ fuel + suc (length vs)
            → is_some (render_node py fuel forest.nodes c) ≡ true)
          → (n : Node) → get k forest.nodes ≡ some n
          → (c : String) → contains c n.children ≡ true
          → is_some (render_node py fuel forest.nodes c) ≡ true
      below_k ih n found c e =
          let listed : contains c (children_at forest.nodes k) ≡ true = ground arith in
          let named = is_below-parent look k c (sym (assembled_children rows k c) ∙ listed) in
          ih c (named, h) (child-fresh look k vs h d c named, d) (omega arith)

  pub roots-some :
      is_some (render_all (render_node py (length forest.nodes) forest.nodes) forest.roots) ≡ true
  roots-some =
      render_all-some (render_node py (length forest.nodes) forest.nodes) forest.roots λ k e.
        render_node-some (length forest.nodes) k [] (sym (assembled_roots rows k) ∙ e) (refl, tt)
          (omega arith)

is_some-trace_answer :
    (py : Python) (v : TraceView) (rows : List Row)
    → v.forest ≡ assemble rows
    → is_some (trace_answer py v) ≡ true
unfolding trace_answer
is_some-trace_answer py v rows e =
    let written : is_some
          (render_all (render_node py (length v.forest.nodes) v.forest.nodes) v.forest.roots)
        ≡ true =
      subst
        (λ (f : Forest).
          is_some (render_all (render_node py (length f.nodes) f.nodes) f.roots) ≡ true)
        (sym e) (roots-some py rows) in
    ground arith

view_of-assemble :
    (py : Python) (pg : Postgres) (trace : Option Row) (spans scores versions : List Row)
    (v : TraceView)
    → view_of py pg trace spans scores versions ≡ ok v
    → v.forest ≡ assemble (order_by (by_start py pg) spans)
unfolding view_of
view_of-assemble py pg none spans scores versions v h = cc
view_of-assemble py pg (some trace) spans scores versions v h = ground arith

-- An answer of `get_trace` can be written out: as many levels as there are spans are enough, for the
-- spans of a trace may name any parents, and the text ends.
pub trace_answer-get_trace :
    (py : Python) (pg : Postgres) (trace_id : String) (ctx : AuthContext) (db : Database)
    (v : TraceView)
    → get_trace py pg trace_id ctx db ≡ ok v
    → (a : Value) × (trace_answer py v ≡ some a)
unfolding get_trace
trace_answer-get_trace py pg trace_id ctx db v h =
    let p = ctx.project_id in
    let trace = first (keep (by_id p trace_id) db.traces) in
    let spans = keep (by_trace p trace_id) db.observations in
    let scores = keep (by_trace p trace_id) db.scores in
    let e = view_of-assemble py pg trace spans scores db.evaluator_versions v h in
    elim (Option-cases (trace_answer py v)) [
      | inl unwritten ↦
          let found = is_some-trace_answer py v (order_by (by_start py pg) spans) e in
          absurd (ground arith)
      | inr written ↦ written
    ]
