-- ===== src/Evaluator/Settling/Announcing.antt =====
-- What an announcement does to the settle checks.
use open_weave.Prelude.{
  ℕ, ◌+◌, ◌≤◌, String, ◌≡◌, refl, inl, inr, false, none, some, [], ◌∷◌, ◌++◌, ◌==◌, arith, text_key,
  ap, ap₂, ◌∙◌, RowKey, row_key, ltb, Option-cases, Bool-cases,
}
use open_weave.Prelude.Dict.{Dict, get, get-put, get-put_self}
use open_weave.Python.{is_empty}
use open_weave.Evaluator.Settling.{Evals, Settings, zadd_gt, announced, handle_message}
use open_weave.Worker.Stream.{count_of}

-- The time of a member, 0 if it is not there.
zadd_gt-later :
    (member : RowKey) (at : ℕ) (due : Dict RowKey ℕ)
    → (t : ℕ) × (get member (zadd_gt member at due) ≡ some t)
      × (at ≤ t)
      × (count_of (get member due) ≤ t)
unfolding zadd_gt
zadd_gt-later member at due = elim (Option-cases (get member due)) [
  | inl q ↦
      (at, ground (arith, q, get-put_self member at due), ground (arith, q), ground (arith, q))
  | inr (t, q) ↦ elim (Bool-cases (ltb t at)) [
    | inl less ↦ (
      at,
      ground (arith, q, less, get-put_self member at due),
      ground (arith, q, less),
      ground (arith, q, less),
    )
    | inr more ↦ (t, ground (arith, q, more), ground (arith, q, more), ground (arith, q, more))
  ]
]

zadd_gt-other :
    (member k : RowKey) (at : ℕ) (due : Dict RowKey ℕ)
    → (member == k) ≡ false
    → get k (zadd_gt member at due) ≡ get k due
unfolding zadd_gt
zadd_gt-other member k at due h = ground (arith, h, get-put member k at due)

-- An announcement of a trace acknowledges its message and moves the trace's settle check to a full
-- settle time from now, or leaves it later than that, and never earlier than it was; nothing is
-- evaluated, and the checks of the other traces stay.
pub handle_message-defers :
    (settings : Settings) (now : ℕ) (message_id pid tid : String) (fields : Dict String String)
    (w : Evals) (k : RowKey)
    → get "project_id" fields ≡ some pid
    → get "trace_id" fields ≡ some tid
    → is_empty pid ≡ false
    → is_empty tid ≡ false
    → ((pid, tid) == k) ≡ false
    → let v = handle_message settings now message_id fields w in
      ((t : ℕ) × (get (pid, tid) v.due ≡ some t)
        × (now + settings.settle ≤ t)
        × (count_of (get (pid, tid) w.due) ≤ t))
      × (get k v.due ≡ get k w.due)
      × (v.acked ≡ w.acked ++ message_id ∷ [])
      × (v.db ≡ w.db)
      × (v.done ≡ w.done)
unfolding handle_message
handle_message-defers settings now message_id pid tid fields w k p t pid_given tid_given other =
    let at = now + settings.settle in
    let member : announced (get "project_id" fields) (get "trace_id" fields) ≡ some (pid, tid) =
      ap₂ announced p t ∙ ground (arith, pid_given, tid_given) in
    let due : (handle_message settings now message_id fields w).due ≡ zadd_gt (pid, tid) at w.due =
      ap (λ m. elim m as (λ _. Dict RowKey ℕ) [ none ↦ w.due | some m ↦ zadd_gt m at w.due ])
        member in
    let (x, found, later, kept) = zadd_gt-later (pid, tid) at w.due in
    (
      (x, ap (get (pid, tid)) due ∙ found, later, kept),
      ap (get k) due ∙ zadd_gt-other (pid, tid) k at w.due other,
      refl,
      refl,
      refl,
    )
