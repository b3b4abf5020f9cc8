-- ===== src/Sdk/Spans/Accepted.antt =====
-- What the client sends for spans, against the server's rules: `observe` and `_validate`.
use Prim.Native.Char.{Char}
use text.Mathlib.TextLemmas.{cons-append}
use open_weave.Prelude.{
  ℕ, ◌+◌, String, Bool, ◌≡◌, refl, true, false, not, ◌&&◌, Option, none, some, List, arith, ◌==◌,
  text_key, all, if◌then◌else◌, [], ◌∷◌, ◌++◌, Bool-cases, Option-cases, inl, inr, ap, ◌∙◌, subst,
  contains,
}
use open_weave.Prelude.Result.{Result}
use open_weave.Prelude.Dict.{get, put, get-put}
use open_weave.Python.{Value, null, str, Row, is_empty, Python}
use open_weave.Ingest.{
  Event, BodyField, trace_create, observation_create, observation_update, sent, validate,
  validate_body,
}
use open_weave.Worker.Stream.{take_text}
use open_weave.Sdk.{Client, enqueue}
use open_weave.Sdk.Spans.{
  Session, set_true, set_given, set_text, stringify, known_types, emit, top_of, type_name,
  ensure_trace, start_span, end_span, open_trace, output_of, error_of, observe,
}

-- The server finds no problem with the event.
abbrev pub is_accepted : Event → Bool
is_accepted event = elim event.body [
  | none ↦ false
  | some (kind, body) ↦ elim (validate event kind body) [ none ↦ true | some problem ↦ false ]
]

abbrev pub is_given : Option String → Bool
is_given none = true
is_given (some t) = not (is_empty t)

-- All that waits to be sent is acceptable, and an open trace has an id.
abbrev pub IsSound : Session → Type 0
IsSound s = (all is_accepted s.client.queue ≡ true) × (is_given s.trace_id ≡ true)

all-append :
    {A : Type 0} (p : A → Bool) (xs ys : List A) → all p (xs ++ ys) ≡ (all p xs && all p ys)
all-append p [] ys = refl
all-append p (x ∷ xs) ys = ground (arith, all-append p xs ys)

sent-put :
    (k d : String) (v : Value) (body : Row) → (k == d) ≡ false → sent d (put k v body) ≡ sent d body
sent-put k d v body h = ground (arith, h, get-put k d v body)

sent-set_true :
    (k d : String) (v : Value) (body : Row)
    → (k == d) ≡ false
    → sent d (set_true k v body) ≡ sent d body
sent-set_true k d v body h = ground (arith, sent-put k d v body h)

sent-set_given :
    (k d : String) (v : Value) (body : Row)
    → (k == d) ≡ false
    → sent d (set_given k v body) ≡ sent d body
sent-set_given k d v body h = ground (arith, sent-put k d v body h)

all-enqueue :
    (event : Event) (c : Client)
    → is_accepted event ≡ true
    → all is_accepted c.queue ≡ true
    → all is_accepted (enqueue event c).queue ≡ true
unfolding enqueue
all-enqueue event c h before = ground (arith, all-append is_accepted c.queue (event ∷ []))

module _ (py : Python) (uuid : ℕ → String) (now : String) where
  sent-set_text :
      (k d : String) (v : Value) (body : Row)
      → (k == d) ≡ false
      → sent d (set_text py uuid now k v body) ≡ sent d body
  sent-set_text k d v body h = ground (arith, sent-put k d (str (stringify py uuid now v)) body h)

  -- The three optional fields of a span leave the others alone.
  sent-span :
      (d : String) (parent input metadata : Value) (base : Row)
      → ("metadata" == d) ≡ false
      → ("input" == d) ≡ false
      → ("parent_observation_id" == d) ≡ false
      → sent d (
          set_true "metadata" metadata
            (set_text py uuid now "input" input (set_given "parent_observation_id" parent base)))
        ≡ sent d base
  sent-span d parent input metadata base a b c =
      let nested = set_given "parent_observation_id" parent base in
      sent-set_true "metadata" d metadata (set_text py uuid now "input" input nested) a
      ∙ sent-set_text "input" d input nested b
      ∙ sent-set_given "parent_observation_id" d parent base c

  not-is_empty-type_name : (kind : String) → is_empty (type_name py uuid now kind) ≡ false
  unfolding type_name
  not-is_empty-type_name kind =
      let first : Char = "O" in
      ap is_empty (
        cons-append first "BSERVATION_TYPE_"
          (if contains (py.upper kind) (known_types py uuid now) then py.upper kind else "SPAN"))

  emit-IsSound :
      (kind : BodyField) (body : Row) (s : Session)
      → is_empty (uuid s.drawn) ≡ false
      → validate_body kind body ≡ none
      → IsSound s
      → IsSound (emit py uuid now kind body s)
  unfolding emit validate
  emit-IsSound kind body s drawn valid sound =
      let event : Event = record {
        event_id = uuid s.drawn;
        body = some (kind, body);
        timestamp = some now;
      } in
      (all-enqueue event s.client (ground (arith, drawn, valid)) sound.0, sound.1)

  module _ (drawn : (n : ℕ) → is_empty (uuid n) ≡ false) where
    abbrev IsOpen : String × Session → Type 0
    IsOpen r = IsSound r.1 × (is_empty r.0 ≡ false)

    ensure_trace-IsOpen :
        (name : String) (s : Session) → IsSound s → IsOpen (ensure_trace py uuid now name s)
    unfolding ensure_trace validate_body get
    ensure_trace-IsOpen name s sound = elim (Option-cases s.trace_id) [
      | inr (tid, opened) ↦
          let same : (tid, s) ≡ ensure_trace py uuid now name s = ground (arith, opened) in
          subst IsOpen same (sound, ground (arith, opened, sound.1))
      | inl closed ↦
          let s' : Session = record s { drawn = s.drawn + 1 } in
          let tid = uuid s.drawn in
          let body : Row = ("id", str tid) ∷ ("name", str name) ∷ ("timestamp", str now) ∷ [] in
          let same : (tid, emit py uuid now trace_create body s')
              ≡ ensure_trace py uuid now name s =
            ground (arith, closed) in
          subst IsOpen same (
            emit-IsSound trace_create body s' (drawn s'.drawn) (ground (arith, drawn s.drawn))
                sound,
            drawn s.drawn,
          )
    ]

    abbrev IsStarted : String × Session → Type 0
    IsStarted r =
        IsSound r.1 × (is_empty r.0 ≡ false) × (is_empty (open_trace py uuid now r.1) ≡ false)

    start_span-IsStarted :
        (name kind : String) (input metadata : Value) (s : Session)
        → IsSound s
        → IsStarted (start_span py uuid now name kind input metadata s)
    unfolding start_span emit validate_body get
    start_span-IsStarted name kind input metadata s sound =
        let (tid, s') = ensure_trace py uuid now name s in
        let (before, filled) = ensure_trace-IsOpen name s sound in
        let span_id = uuid s'.drawn in
        let base : Row =
          ("id", str span_id)
          ∷ ("trace_id", str tid)
          ∷ ("type", str (type_name py uuid now kind))
          ∷ ("name", str name)
          ∷ ("start_time", str now)
          ∷ ("level", str "OBSERVATION_LEVEL_DEFAULT")
          ∷ [] in
        let kept = λ (d : String). sent-span d (top_of py uuid now s'.stack) input metadata base in
        let with_id = kept "id" refl refl refl in
        let with_trace = kept "trace_id" refl refl refl in
        let with_type = kept "type" refl refl refl in
        let typed = not-is_empty-type_name kind in
        (
          emit-IsSound observation_create _
              (record s' { trace_id = some tid; drawn = s'.drawn + 1 }) (drawn (s'.drawn + 1))
              (ground (arith, with_id, with_trace, with_type, drawn s'.drawn, filled, typed))
              (before.0, ground (arith, filled)),
          drawn s'.drawn,
          filled,
        )

    end_span-IsSound :
        (span_id tid : String) (output : Value) (error : Option String) (s : Session)
        → is_empty span_id ≡ false
        → is_empty tid ≡ false
        → IsSound s
        → IsSound (end_span py uuid now span_id tid output error s)
    unfolding end_span validate_body get
    end_span-IsSound span_id tid output none s a b sound =
        let base : Row = ("id", str span_id) ∷ ("trace_id", str tid) ∷ ("end_time", str now) ∷ [] in
        let with_id = sent-set_text "output" "id" output base refl in
        let with_trace = sent-set_text "output" "trace_id" output base refl in
        emit-IsSound observation_update _ s (drawn s.drawn)
          (ground (arith, with_id, with_trace, a, b)) sound
    end_span-IsSound span_id tid output (some message) s a b sound =
        let base : Row = ("id", str span_id) ∷ ("trace_id", str tid) ∷ ("end_time", str now) ∷ [] in
        let failed = put "level" (str "OBSERVATION_LEVEL_ERROR") base in
        let text = str (take_text 4000 message) in
        let with_id =
          sent-put "status_message" "id" text failed refl ∙ sent-put "level" "id" _ base refl in
        let with_trace =
          sent-put "status_message" "trace_id" text failed refl
          ∙ sent-put "level" "trace_id" _ base refl in
        emit-IsSound observation_update _ s (drawn s.drawn)
          (ground (arith, with_id, with_trace, a, b)) sound

    -- What an observed function sends, whatever it returns or raises, are events that the server
    -- accepts, with an open trace or without one: if no id that is drawn is empty, `observe` leaves
    -- a queue in which `_validate` finds no problem, where the function itself does so and the queue
    -- before had none.
    pub observe-IsSound :
        (name kind : String) (input : Value) (capture : Bool)
        (run : Session → Result String Value × Session) (s : Session)
        → ((t : Session) → IsSound t → IsSound (run t).1)
        → IsSound s
        → IsSound (observe py uuid now name kind input capture run s).1
    unfolding observe
    observe-IsSound name kind input capture run s runs sound = elim (Bool-cases s.client.enabled) [
      | inr off ↦
          let same : (run s).1 ≡ (observe py uuid now name kind input capture run s).1 =
            ground (arith, off) in
          subst IsSound same (runs s sound)
      | inl on ↦
          let started = start_span py uuid now name kind input null s in
          let result = run started.1 in
          let (inside, span, trace) = start_span-IsStarted name kind input null s sound in
          let ended =
            end_span py uuid now started.0 (open_trace py uuid now started.1)
              (output_of py uuid now capture result.0) (error_of py uuid now result.0) result.1 in
          let closed : Session = record ended { trace_id = s.trace_id; stack = s.stack } in
          let same : closed ≡ (observe py uuid now name kind input capture run s).1 =
            ground (arith, on) in
          let sent_all =
            end_span-IsSound started.0 (open_trace py uuid now started.1)
              (output_of py uuid now capture result.0) (error_of py uuid now result.0) result.1 span
              trace (runs started.1 inside) in
          subst IsSound same (sent_all.0, sound.1)
    ]
