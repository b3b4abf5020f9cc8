-- ===== src/Api/Tree/Shown.antt =====
-- Which spans the tree of `get_trace` of agent-observability/api-server/main.py shows.
use open_weave.Prelude.{
  String, Bool, true, ◌≡◌, ◌∙◌, sym, subst, Option, some, List, contains, is_some, text_key, arith,
  ◌↔◌,
}
use open_weave.Python.{Row}
use open_weave.Api.Tree.{index_rows, Forest, keys, assemble}
use open_weave.Api.Tree.Placing.{
  children_at, is_top, parent_in, is_below-parent, contains-keys, parent_at-index_rows,
  assembled_roots, assembled_children,
}

-- A span is shown at the top level, or below a span that is shown.
pub data Shown (f : Forest) : String → Type 0 where
  at_top : {k : String} → contains k f.roots ≡ true → Shown f k
  inside : {p k : String} → Shown f p → contains k (children_at f.nodes p) ≡ true → Shown f k

-- The chain of parents ends: at a span that names no parent, or one that is not there.
pub data Anchored (look : String → Option (Option String)) : String → Type 0 where
  ends : {k : String} → is_top look k ≡ true → Anchored look k
  above : {p k : String} → Anchored look p → look k ≡ some (some p) → Anchored look k

is_some-Anchored :
    {look : String → Option (Option String)} {k : String}
    → Anchored look k
    → is_some (look k) ≡ true
is_some-Anchored {look} {k} (ends h) = ground arith
is_some-Anchored {look} {k} (above a e) = ground arith

Shown-Anchored :
    (rows : List Row) {k : String} → Shown (assemble rows) k → Anchored (parent_in rows) k
Shown-Anchored rows {k} (at_top h) = ends (sym (assembled_roots rows k) ∙ h)
Shown-Anchored rows {k} (inside {p} s h) =
    above (Shown-Anchored rows s)
      (is_below-parent (parent_in rows) p k (sym (assembled_children rows p k) ∙ h))

Anchored-Shown :
    (rows : List Row) {k : String} → Anchored (parent_in rows) k → Shown (assemble rows) k
Anchored-Shown rows {k} (ends h) = at_top (assembled_roots rows k ∙ h)
Anchored-Shown rows {k} (above {p} a e) =
    inside (Anchored-Shown rows a)
      (assembled_children rows p k ∙ ground (arith, is_some-Anchored a, text_key.same_iff p p))

-- The tree of a trace shows a span exactly if its chain of parents ends, at a span that names no
-- parent or one whose parent has not arrived.
pub assemble-shows :
    (rows : List Row) (k : String) → Shown (assemble rows) k ↔ Anchored (parent_in rows) k
assemble-shows rows k = (Shown-Anchored rows, Anchored-Shown rows)

-- Parents that stay among `loop` never end.
not-Anchored_loop :
    {look : String → Option (Option String)} (loop : String → Bool)
    → ((k : String) → loop k ≡ true → (p : String) × (look k ≡ some (some p)) × (loop p ≡ true))
    → {k : String} → loop k ≡ true
    → ¬ Anchored look k
not-Anchored_loop {look} loop closed {k} h (ends e) =
    let (p, named, stays) = closed k h in let (q, known, _) = closed p stays in ground arith
not-Anchored_loop {look} loop closed {k} h (above {p} a e) =
    let (q, named, stays) = closed k h in
    let same : q ≡ p = ground arith in
    not-Anchored_loop loop closed (subst (λ x. loop x ≡ true) same stays) a

-- Spans whose parents lead round among themselves, such as a span that names itself as its parent,
-- are stored and counted, but the tree shows none of them.
pub not-Shown_loop :
    (rows : List Row) (loop : String → Bool)
    → ((k : String)
        → loop k ≡ true
        → (p : String) × (parent_in rows k ≡ some (some p)) × (loop p ≡ true))
    → (k : String) → loop k ≡ true
    → (contains k (keys (index_rows rows)) ≡ true) × (¬ Shown (assemble rows) k)
not-Shown_loop rows loop closed k h =
    let (p, named, _) = closed k h in
    (
      contains-keys k (index_rows rows) ∙ ground (arith, parent_at-index_rows rows k),
      λ s. not-Anchored_loop loop closed h (Shown-Anchored rows s),
    )
