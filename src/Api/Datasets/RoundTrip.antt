-- ===== src/Api/Datasets/RoundTrip.antt =====
-- `add_item` and `list_items` of agent-observability/api-server/main.py: what is put into a dataset
-- comes out of it.
use open_weave.Prelude.{
  ℕ, ◌≤◌, String, true, ◌≡◌, refl, ap, ◌∙◌, sym, subst, none, some, List, [], ◌∷◌, ◌++◌, keep, map,
  take, length, In, text_key, arith, inl, if◌then◌else◌,
}
use open_weave.Prelude.Dict.{get}
use open_weave.Prelude.Result.{ok, >>=-eq-ok}
use open_weave.Python.{Value, null, str, text_value, truthy, Python}
use open_weave.Auth.{AuthContext}
use open_weave.Api.{Database, decode_json}
use open_weave.Api.Sql.{Postgres, first, order_by}
use open_weave.Api.Traces.{object}
use open_weave.Api.Tree.{by_id}
use open_weave.Api.Datasets.{
  DatasetItemIn, dataset_id, upsert, item_row, item_id, change_item, put_item, add_item, item_entry,
  active_in, created_before, list_items,
}
use open_weave.Api.Datasets.Rows.{
  upsert-append, In-append, In-keep_of, In-map, In-take, In-order_by, length-keep, length-order_by,
}

-- What is listed of an item as it was sent: an empty `metadata` is stored as none.
abbrev pub listed_item : String → DatasetItemIn → Value
listed_item id body = object (
    ("id", str id)
    ∷ ("input", body.input)
    ∷ ("expected_output", body.expected_output)
    ∷ ("metadata", if truthy body.metadata then body.metadata else null)
    ∷ ("source_trace_id", text_value body.source_trace_id)
    ∷ [])

-- A value that is read back from a jsonb column as it was written.
abbrev pub IsReadBack : Python → Postgres → Value → Type 0
IsReadBack py pg v = py.loads (pg.jsonb (py.dumps v)) ≡ some v

module _ (py : Python) (pg : Postgres) (uuid : String) (now : ℕ) where
  active_in-item_row :
      (p dataset : String) (body : DatasetItemIn)
      → active_in py pg p dataset (item_row py pg uuid now p dataset body) ≡ true
  unfolding get
  active_in-item_row p dataset body =
      ground (arith, text_key.same_iff p p, text_key.same_iff dataset dataset)

  item_entry-item_row :
      (p dataset : String) (body : DatasetItemIn)
      → IsReadBack py pg body.input
      → IsReadBack py pg body.expected_output
      → IsReadBack py pg body.metadata
      → item_entry py (item_row py pg uuid now p dataset body)
        ≡ listed_item (item_id uuid body) body
  unfolding get decode_json
  item_entry-item_row p dataset body input expected metadata =
      ground (arith, input, expected, metadata)

  -- An item that was added under an id that is new to the project is listed with the dataset, as it was
  -- sent, where the limit leaves room for every item. Its three JSON values are taken to be read back
  -- as they are written.
  pub list_items-add_item :
      (name : String) (body : DatasetItemIn) (ctx : AuthContext) (db db' : Database)
      (answer : Value) (limit : ℕ)
      → IsReadBack py pg body.input
      → IsReadBack py pg body.expected_output
      → IsReadBack py pg body.metadata
      → first (keep (by_id ctx.project_id (item_id uuid body)) db.dataset_items) ≡ none
      → add_item py pg uuid now name body ctx db ≡ ok (answer, db')
      → length db'.dataset_items ≤ limit
      → (items : List Value) × (list_items py pg name limit ctx db' ≡ ok items)
        × In (listed_item (item_id uuid body) body) items
  unfolding add_item put_item list_items dataset_id
  list_items-add_item name body ctx db db' answer limit input expected metadata is_new h room =
      let p = ctx.project_id in
      let (dataset, e, rest) = >>=-eq-ok (dataset_id p name db) _ h in
      let same = by_id p (item_id uuid body) in
      let fresh = item_row py pg uuid now p dataset body in
      let added = upsert same (change_item py pg uuid now body) fresh db.dataset_items in
      let same_db : record db { dataset_items = added.0 } ≡ db' = ground arith in
      let known : dataset_id p name db' ≡ ok dataset =
        subst (λ (d : Database). dataset_id p name d ≡ ok dataset) same_db e in
      let rows : db'.dataset_items ≡ db.dataset_items ++ fresh ∷ [] =
        sym (ap (λ (d : Database). d.dataset_items) same_db)
        ∙ upsert-append same (change_item py pg uuid now body) fresh db.dataset_items is_new in
      let active = active_in py pg p dataset in
      let before = created_before py pg in
      let stored : In fresh db'.dataset_items =
        subst (In fresh) (sym rows) (In-append fresh db.dataset_items (fresh ∷ []) (inl refl)) in
      let sorted = order_by before (keep active db'.dataset_items) in
      let found : In fresh (take limit sorted) =
        In-take limit fresh sorted
          (omega (
            arith,
            length-order_by before (keep active db'.dataset_items),
            length-keep active db'.dataset_items,
          ))
          (In-order_by before fresh (keep active db'.dataset_items) (
            In-keep_of active fresh db'.dataset_items (active_in-item_row p dataset body)
              stored)) in
      (
        map (item_entry py) (take limit sorted),
        ground (arith, known),
        subst (λ (v : Value). In v (map (item_entry py) (take limit sorted)))
            (item_entry-item_row p dataset body input expected metadata)
            (In-map (item_entry py) fresh (take limit sorted) found),
      )
