-- ===== src/Pricing/Cache/Loading.antt =====
-- What `refresh` loads: every price of every model whose pattern compiles, whatever the others hold.
use open_weave.Prelude.{
  ℕ, ◌≤◌, ◌<◌, ◌-◌, String, ◌≡◌, refl, ◌⊎◌, inl, inr, ◌≢◌, Bool, true, false, Option, none, some,
  List, [], ◌∷◌, ◌++◌, arith, ◌==◌, if◌then◌else◌, text_key, All, In, Bool-cases, ap, sym, ◌∙◌,
  same_self,
}
use mathlib.Core.Path.{subst, subst₂}
use open_weave.Prelude.Int.{ℤ}
use open_weave.Prelude.Dict.{Dict, get, get-put, get-put_self}
use open_weave.Pricing.{ModelPrice}
use open_weave.Pricing.Cache.{
  PriceRow, ModelEntry, entry_for, with_price, group_row, group_rows, compile_models, load_models,
  refresh, PriceCache,
}

-- The entry of a model is there, with its pattern, and holds the price of the usage.
pub record Holds (id pattern usage : String) (price : ℤ) (d : Dict String ModelEntry) : Type 0 where
  pub entry : ModelEntry
  pub found : get id d ≡ some entry
  pub its_pattern : entry.match_pattern ≡ pattern
  pub its_price : get usage entry.prices ≡ some price

-- Whatever entry the model has so far holds its pattern.
abbrev Agrees : String → String → Dict String ModelEntry → Type 0
Agrees id pattern d = (e : ModelEntry) → get id d ≡ some e → e.match_pattern ≡ pattern

-- A row of the same model shows the same pattern, as the join does.
abbrev SamePattern : PriceRow → PriceRow → Type 0
SamePattern r x = x.id ≡ r.id → x.match_pattern ≡ r.match_pattern

-- A row that prices another usage, or another model.
abbrev OtherPrice : String → String → PriceRow → Type 0
OtherPrice id usage x = (x.id ≢ id) ⊎ (x.usage_type ≢ some usage)

abbrev after : PriceRow → Dict String ModelEntry → ModelEntry
after x d = with_price x.usage_type x.price (entry_for x (get x.id d))

get-group_row :
    (j : String) (x : PriceRow) (d : Dict String ModelEntry)
    → get j (group_row x d) ≡ (if x.id == j then some (after x d) else get j d)
unfolding group_row
get-group_row j x d = get-put x.id j (after x d) d

pattern-with_price :
    (o : Option String) (p : ℤ) (e : ModelEntry)
    → (with_price o p e).match_pattern ≡ e.match_pattern
pattern-with_price none p e = refl
pattern-with_price (some u) p e = refl

price-with_price_ne :
    (o : Option String) (p : ℤ) (e : ModelEntry) (usage : String)
    → o ≢ some usage
    → get usage (with_price o p e).prices ≡ get usage e.prices
price-with_price_ne none p e usage h = refl
price-with_price_ne (some u) p e usage h =
    get-put u usage p e.prices ∙ elim (Bool-cases (u == usage)) [
      | inl same ↦ absurd (h (ap some ((text_key.same_iff u usage).0 same)))
      | inr differs ↦ rw differs
    ]

group_row-Agrees :
    (r x : PriceRow) (d : Dict String ModelEntry)
    → SamePattern r x
    → Agrees r.id r.match_pattern d
    → Agrees r.id r.match_pattern (group_row x d)
group_row-Agrees r x d same agrees e h = elim (Bool-cases (x.id == r.id)) [
  | inl t ↦
      let q = (text_key.same_iff x.id r.id).0 t in
      let e_eq : after x d ≡ e = ground (arith, get-group_row r.id x d) in
      ap (λ (a : ModelEntry). a.match_pattern) (sym e_eq)
      ∙ pattern-with_price x.usage_type x.price (entry_for x (get x.id d))
      ∙ known (get x.id d) (λ a k. agrees a (ap (λ j. get j d) (sym q) ∙ k)) (same q)
  | inr t ↦ agrees e (ground (arith, get-group_row r.id x d))
]
  where
    known :
        (o : Option ModelEntry)
        → ((a : ModelEntry) → o ≡ some a → a.match_pattern ≡ r.match_pattern)
        → x.match_pattern ≡ r.match_pattern
        → (entry_for x o).match_pattern ≡ r.match_pattern
    known none k p = p
    known (some a) k p = k a refl

-- Once a price is held, a row that prices something else keeps it.
group_row-Holds :
    (id pattern usage : String) (price : ℤ) (x : PriceRow) (d : Dict String ModelEntry)
    → OtherPrice id usage x
    → Holds id pattern usage price d
    → Holds id pattern usage price (group_row x d)
group_row-Holds id pattern usage price x d other h = elim (Bool-cases (x.id == id)) [
  | inl t ↦
      let q = (text_key.same_iff x.id id).0 t in
      let e_eq : entry_for x (get x.id d) ≡ h.entry =
        ap (entry_for x) (ap (λ j. get j d) q ∙ h.found) in
      record {
        entry = with_price x.usage_type x.price h.entry;
        found = ground (arith, get-group_row id x d, e_eq);
        its_pattern = pattern-with_price x.usage_type x.price h.entry ∙ h.its_pattern;
        its_price = elim other [
          | inl ne ↦ absurd (ne q)
          | inr ne ↦ price-with_price_ne x.usage_type x.price h.entry usage ne ∙ h.its_price
        ];
      }
  | inr t ↦ record {
    entry = h.entry;
    found = ground (arith, get-group_row id x d, h.found);
    its_pattern = h.its_pattern;
    its_price = h.its_price;
  }
]

group_rows-Holds :
    (id pattern usage : String) (price : ℤ) (rows : List PriceRow) (d : Dict String ModelEntry)
    → All (OtherPrice id usage) rows
    → Holds id pattern usage price d
    → Holds id pattern usage price (group_rows rows d)
unfolding group_rows
group_rows-Holds id pattern usage price [] d others h = h
group_rows-Holds id pattern usage price (x ∷ rows) d others h =
    group_rows-Holds id pattern usage price rows (group_row x d) others.1
      (group_row-Holds id pattern usage price x d others.0 h)

-- The row itself puts its price there.
group_row-Holds_self :
    (r : PriceRow) (usage : String) (d : Dict String ModelEntry)
    → r.usage_type ≡ some usage
    → Agrees r.id r.match_pattern d
    → Holds r.id r.match_pattern usage r.price (group_row r d)
group_row-Holds_self r usage d e agrees = record {
  entry = after r d;
  found = get-group_row r.id r d ∙ rw (same_self r.id);
  its_pattern =
      pattern-with_price r.usage_type r.price (entry_for r (get r.id d))
      ∙ known (get r.id d) agrees;
  its_price =
      ap (λ o. get usage (with_price o r.price (entry_for r (get r.id d))).prices) e
      ∙ get-put_self usage r.price (entry_for r (get r.id d)).prices;
}
  where
    known :
        (o : Option ModelEntry)
        → ((a : ModelEntry) → o ≡ some a → a.match_pattern ≡ r.match_pattern)
        → (entry_for r o).match_pattern ≡ r.match_pattern
    known none k = refl
    known (some a) k = k a refl

group_rows-append :
    (xs ys : List PriceRow) (d : Dict String ModelEntry)
    → group_rows (xs ++ ys) d ≡ group_rows ys (group_rows xs d)
unfolding group_rows
group_rows-append [] ys d = refl
group_rows-append (x ∷ xs) ys d = group_rows-append xs ys (group_row x d)

group_rows-Agrees :
    (r : PriceRow) (rows : List PriceRow) (d : Dict String ModelEntry)
    → All (SamePattern r) rows
    → Agrees r.id r.match_pattern d
    → Agrees r.id r.match_pattern (group_rows rows d)
unfolding group_rows
group_rows-Agrees r [] d same h = h
group_rows-Agrees r (x ∷ rows) d same h =
    group_rows-Agrees r rows (group_row x d) same.1 (group_row-Agrees r x d same.0 h)

-- A loaded row for the model, with the compiled pattern and the price of the usage.
pub record Loaded (id usage : String) (pattern : String → Bool) (price : ℤ)
    (models : List ModelPrice) : Type 0 where
  pub model : ModelPrice
  pub member : In model models
  pub its_id : model.model_id ≡ id
  pub its_pattern : model.pattern ≡ pattern
  pub its_price : get usage model.prices ≡ some price

no_entry : (id : String) (e : ModelEntry) → get id [] ≡ some e → ⊥
unfolding get
no_entry id e h = cc

module _ (compile : String → Option (String → Bool)) where
  -- The ModelPrice built of an entry.
  abbrev built : String → ModelEntry → (String → Bool) → ModelPrice
  built id e pattern = record {
    model_id = id;
    model_name = e.model_name;
    project_id = e.project_id;
    pattern = pattern;
    start_date = e.start_date;
    prices = e.prices;
  }

  compile_models-cons :
      (j : String) (w : ModelEntry) (d : Dict String ModelEntry) (m : ModelPrice)
      → In m (compile_models compile d)
      → In m (compile_models compile ((j, w) ∷ d))
  unfolding compile_models
  compile_models-cons j w d m i = go (compile w.match_pattern)
    where
      go :
          (o : Option (String → Bool))
          → In m (elim o as (λ _. List ModelPrice) [
            | none ↦ compile_models compile d
            | some pattern ↦ built j w pattern ∷ compile_models compile d
          ])
      go none = i
      go (some pattern) = inr i

  compile_models-head :
      (id : String) (e : ModelEntry) (pattern : String → Bool) (d : Dict String ModelEntry)
      → compile e.match_pattern ≡ some pattern
      → In (built id e pattern) (compile_models compile ((id, e) ∷ d))
  unfolding compile_models
  compile_models-head id e pattern d c =
      subst
        (λ o. In (built id e pattern) (elim o as (λ _. List ModelPrice) [
          | none ↦ compile_models compile d
          | some p ↦ built id e p ∷ compile_models compile d
        ]))
        (sym c) (inl refl)

  compile_models-In :
      (id : String) (e : ModelEntry) (pattern : String → Bool) (d : Dict String ModelEntry)
      → get id d ≡ some e
      → compile e.match_pattern ≡ some pattern
      → In (built id e pattern) (compile_models compile d)
  unfolding get
  compile_models-In id e pattern [] h c = cc
  compile_models-In id e pattern ((j, w) ∷ d) h c = elim (Bool-cases (j == id)) [
    | inl t ↦ here (ground (arith, h, t)) ((text_key.same_iff j id).0 t)
    | inr t ↦
        compile_models-cons j w d (built id e pattern)
          (compile_models-In id e pattern d (ground (arith, h, t)) c)
  ]
    where
      here : w ≡ e → j ≡ id → In (built id e pattern) (compile_models compile ((j, w) ∷ d))
      here p q =
          subst₂ (λ a b. In (built id e pattern) (compile_models compile ((a, b) ∷ d))) (sym q)
            (sym p) (compile_models-head id e pattern d c)

  -- A row of the join whose pattern compiles is loaded with its price, whatever the patterns of the
  -- other models, if the rows of one model show one pattern and no later row prices the same usage.
  pub load_models-Loaded :
      (pre post : List PriceRow) (r : PriceRow) (usage : String) (pattern : String → Bool)
      → compile r.match_pattern ≡ some pattern
      → r.usage_type ≡ some usage
      → All (SamePattern r) pre
      → All (OtherPrice r.id usage) post
      → Loaded r.id usage pattern r.price (load_models compile (pre ++ r ∷ post))
  unfolding load_models
  load_models-Loaded pre post r usage pattern c u same others =
      let before = group_rows pre [] in
      let held =
        group_rows-Holds r.id r.match_pattern usage r.price post (group_row r before) others (
          group_row-Holds_self r usage before u
            (group_rows-Agrees r pre [] same (λ e h. absurd (no_entry r.id e h)))) in
      subst (λ d. Loaded r.id usage pattern r.price (compile_models compile d))
        (sym (group_rows-append pre (r ∷ post) []))
        (record {
          model = built r.id held.entry pattern;
          member =
              compile_models-In r.id held.entry pattern (group_rows (r ∷ post) before)
                (unfold group_rows in held.found) (ap compile held.its_pattern ∙ c);
          its_id = refl;
          its_pattern = refl;
          its_price = held.its_price;
        })

-- `refresh` reads the tables again when it is forced, when nothing was ever loaded, whatever the
-- clock shows, and when the ttl has passed; between those it keeps the cache as it is.
pub refresh_lem :
    (compile : String → Option (String → Bool)) (rows : List PriceRow) (force : Bool) (now : ℕ)
    (c : PriceCache)
    → ((force ≡ true)
          ⊎ (c.loaded_at ≡ none)
          ⊎ ((t : ℕ) × (c.loaded_at ≡ some t) × (c.ttl ≤ now - t)))
        × (refresh compile rows force now c
            ≡ record c { models = load_models compile rows; loaded_at = some now })
      ⊎ ((t : ℕ) × (force ≡ false)
          × (c.loaded_at ≡ some t)
          × (now - t < c.ttl)
          × (refresh compile rows force now c ≡ c))
unfolding refresh
refresh_lem compile rows force now c = ground arith
