-- ===== src/Api/Compare/Items.antt =====
-- The totals of a run in `compare_runs` of agent-observability/api-server/main.py: each run item counts
-- once, however many spans and scores it has.
use open_weave.Prelude.{
  String, true, ◌≡◌, refl, ap, ◌∙◌, Option, none, some, List, [], ◌∷◌, ◌==◌, keep, contains, map,
  length, if◌then◌else◌, text_key, row_key, RowKey, arith, Option-cases, inl, inr,
}
use open_weave.Prelude.Dict.{Dict, get, put, get-put}
use open_weave.Python.{null, is_null, Row, Python}
use open_weave.Api.{Database}
use open_weave.Api.Sql.{Postgres, join, group_by, aggregate, column}
use open_weave.Api.Traces.{latency_of, optional_float}
use open_weave.Api.Sql.Groups.{UniqueKeys, group_by-UniqueKeys, rows_of_group-group_by}
use open_weave.Api.Compare.{
  Totals, RunEntry, linked_items, run_name, totals_of_group, blank_run, blank_runs,
  change_run_entry, set_totals, add_totals, score_key, score_mean, scores_item, of_item_trace,
  add_scores, runs_out,
}

-- What the answer holds of a run beside its scores.
abbrev pub totals_at : String → Dict String RunEntry → Option Totals
totals_at k runs = elim (get k runs) [ none ↦ none | some entry ↦ some entry.totals ]

totals_at-change :
    (change : RunEntry → RunEntry) (k j : String) (runs : Dict String RunEntry)
    → totals_at k (change_run_entry change j runs) ≡ elim (get k runs) [
      | none ↦ none
      | some entry ↦ if j == k then some (change entry).totals else some entry.totals
    ]
totals_at-change change k j runs = elim (Option-cases (get j runs)) [
  | inl missing ↦ ground (arith, text_key.same_iff j k)
  | inr (entry, found) ↦ ground (arith, text_key.same_iff j k, get-put j k (change entry) runs)
]

module _ (py : Python) (pg : Postgres) where
  totals_at-add_scores :
      (k : String) (groups : List (RowKey × List ((Row × Row) × Row))) (runs : Dict String RunEntry)
      → totals_at k (add_scores py pg groups runs) ≡ totals_at k runs
  unfolding add_scores
  totals_at-add_scores k [] runs = refl
  totals_at-add_scores k (((run, name), rows) ∷ groups) runs =
      let change : RunEntry → RunEntry =
        λ entry. record entry { scores = put name (score_mean py pg rows) entry.scores } in
      totals_at-add_scores k groups (change_run_entry change run runs)
      ∙ totals_at-change change k run runs
      ∙ ground arith

  abbrev blank : Totals
  blank = blank_run.totals

  totals_at-blank_runs :
      (k : String) (names : List String) (runs : Dict String RunEntry)
      → totals_at k (blank_runs names runs)
        ≡ (if contains k names then some blank else totals_at k runs)
  unfolding blank_runs
  totals_at-blank_runs k [] runs = refl
  totals_at-blank_runs k (n ∷ names) runs =
      totals_at-blank_runs k names (put n blank_run runs)
      ∙ ground (arith, text_key.same_iff n k, get-put n k blank_run runs)

  module _ (db : Database) where
    -- The number of the run items of a run, and the averages and the sum over them, one value for
    -- each: the sum of the costs of its trace's spans, and the time that they span.
    abbrev pub run_totals : List (Row × Row) → Totals
    run_totals js =
        let cost = λ (j : Row × Row).
          aggregate pg.sum (column "total_cost" (keep (of_item_trace j.1) db.observations)) in
        let latency = λ (j : Row × Row). latency_of pg (keep (of_item_trace j.1) db.observations) in
        let avg_cost = aggregate pg.avg (map cost js) in
        record {
          items = length js;
          avg_cost = optional_float py avg_cost;
          total_cost =
              if is_null avg_cost then null else optional_float py (aggregate pg.sum (map cost js));
          avg_latency_ms = optional_float py (aggregate pg.avg (map latency js));
        }

    -- A row of the totals replaces what the run has.
    abbrev with_group : String → List (String × List (Row × Row)) → Option Totals → Option Totals
    with_group k groups none = none
    with_group k groups (some t) = elim (get k groups) [
      | none ↦ some t
      | some js ↦ some (run_totals js)
    ]

    with_group-nil : (k : String) (t : Option Totals) → t ≡ with_group k [] t
    unfolding get
    with_group-nil k none = refl
    with_group-nil k (some t) = refl

    with_group-next :
        (k i : String) (js : List (Row × Row)) (groups : List (String × List (Row × Row)))
        (entry : Option RunEntry)
        → get i groups ≡ none
        → with_group k groups (elim entry [
          | none ↦ none
          | some e ↦
              if i == k
              then some (set_totals py (totals_of_group pg db js) e).totals
              else some e.totals
        ])
          ≡ with_group k ((i, js) ∷ groups) (elim entry [ none ↦ none | some e ↦ some e.totals ])
    unfolding get totals_of_group
    with_group-next k i js groups none h = refl
    with_group-next k i js groups (some e) h = ground (arith, text_key.same_iff i k)

    totals_at-add_totals :
        (k : String) (groups : List (String × List (Row × Row))) (runs : Dict String RunEntry)
        → UniqueKeys groups
        → totals_at k (add_totals py pg db groups runs) ≡ with_group k groups (totals_at k runs)
    unfolding add_totals
    totals_at-add_totals k [] runs h = with_group-nil k (totals_at k runs)
    totals_at-add_totals k ((i, js) ∷ groups) runs h =
        let change = set_totals py (totals_of_group pg db js) in
        totals_at-add_totals k groups (change_run_entry change i runs) h.1
        ∙ ap (with_group k groups) (totals_at-change change k i runs)
        ∙ with_group-next k i js groups (get k runs) h.0

    chosen :
        (k : String) (linked : List (Row × Row))
        → with_group k (group_by run_name linked) (some blank)
          ≡ some (run_totals (keep (λ j. run_name j == k) linked))
    unfolding totals_of_group
    chosen k linked = elim (Option-cases (get k (group_by run_name linked))) [
      | inl missing ↦ ground (arith, rows_of_group-group_by run_name k linked)
      | inr (js, found) ↦ ground (arith, rows_of_group-group_by run_name k linked)
    ]

    -- What the answer gives for a named run is the number of its run items and the averages and the sum
    -- over these, with one cost and one latency for each: scores, missing or many, change none of
    -- them.
    pub totals_at-runs_out :
        (p dataset : String) (names : List String) (k : String)
        → contains k names ≡ true
        → totals_at k (runs_out py pg p dataset names db)
          ≡ some (run_totals (keep (λ j. run_name j == k) (linked_items p dataset names db)))
    unfolding runs_out get
    totals_at-runs_out p dataset names k h =
        let linked = linked_items p dataset names db in
        let scored = join (λ (j : Row × Row) s. scores_item j.1 s) linked db.scores in
        let groups = group_by run_name linked in
        let start = blank_runs names [] in
        let named : totals_at k start ≡ some blank =
          totals_at-blank_runs k names [] ∙ ground arith in
        totals_at-add_scores k (group_by (score_key py) scored) (add_totals py pg db groups start)
        ∙ totals_at-add_totals k groups start (group_by-UniqueKeys run_name linked)
        ∙ ap (with_group k groups) named
        ∙ chosen k linked
