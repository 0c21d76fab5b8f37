-- ===== src/Store/Audit.antt =====
-- internal/store/sqlite/store.go: `Emit`, which implements the `Emitter` of internal/audit, and
-- `ListAuditEvents`.
use controlai.Prelude.{
  ℕ, ◌+◌, String, Bool, true, ◌==◌, List, [], ◌∷◌, select, take, concat, ltb, ℤ, pos, negsuc,
  if◌then◌else◌,
}
use controlai.Store.Tables.Statements.{insert, order_by}
use controlai.Store.Rows.{Event, kind_text}
use controlai.Store.Query.{ok, Query, Statement, run}

abbrev pub stored_event : Event → ℕ → ℕ → Event
stored_event ev id now = record ev {
  id = id;
  detail = if ev.detail == "" then "{}" else ev.detail;
  created_at = now;
}

unfoldable pub insert_event : Event → Statement Unit
insert_event ev now t = (
  ok tt,
  record t {
    audit_events = insert (stored_event ev t.next_event_id now) t.audit_events;
    next_event_id = t.next_event_id + 1;
  },
)

unfoldable pub emit : Event → Query Unit
emit ev = run (insert_event ev)

-- WHERE kind LIKE ?: `like` is the operator of SQLite, with the column first.
abbrev pub has_prefix : (String → String → Bool) → String → Event → Bool
has_prefix like prefix ev =
    if prefix == "" then true else like (kind_text ev.kind) (concat (prefix ∷ "%" ∷ []))

-- LIMIT ?: a negative limit is none.
abbrev pub limited : {A : Type 0} → ℤ → List A → List A
limited (pos n) rows = take n rows
limited (negsuc n) rows = rows

unfoldable pub select_events : (String → String → Bool) → String → ℤ → Statement (List Event)
select_events like prefix limit now t = (
  ok (
      limited limit (
        order_by (λ a b. ltb b.created_at a.created_at)
          (select (has_prefix like prefix) t.audit_events))),
  t,
)

-- `ListAuditEvents`; SQLite may give events of one second in another order.
unfoldable pub list_audit_events : (String → String → Bool) → String → ℤ → Query (List Event)
list_audit_events like prefix limit = run (select_events like prefix limit)
