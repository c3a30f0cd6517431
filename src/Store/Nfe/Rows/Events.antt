-- ===== src/Store/Nfe/Rows/Events.antt =====
-- The statements of internal/store/queries/nfe.sql on events and on answered manifestações.
use nanci.Prelude.{
  ℕ, Bool, true, false, not, ◌&&◌, ◌||◌, ◌∷◌, Option, none, some, any_by, if◌then◌else◌, ◌==◌,
}
use nanci.Text.{Bytes, bytes_eq}
use nanci.Sync.Env.{Result, ok, fail}
use nanci.Nfe.Types.{Event, Completeness, resumo, completa}
use nanci.Store.Select.{update_where}
use nanci.Store.Nfe.Tables.{
  EventRow, CompanyRow, Tables, ManifestacaoRecord, ManifestacaoRow, allowed_event, of_chave,
}
use nanci.Store.Nfe.Rows.{constraint, guarded}

-- the UNIQUE key of nfe_events
abbrev pub same_event : Event → EventRow → Bool
same_event e row =
    bytes_eq row.event.chave_acesso e.chave_acesso
    && bytes_eq row.event.tp_evento e.tp_evento
    && row.event.n_seq_evento == e.n_seq_evento

-- HasNFeEvent; its count is only compared with 0
unfoldable pub has_event : Event → Tables → Bool
has_event e t = any_by (same_event e) t.events

-- UpsertNFeEvent
abbrev is_downgrade : Completeness → Completeness → Bool
is_downgrade completa resumo = true
is_downgrade _ _ = false

abbrev pub with_event : Event → ℕ → EventRow → EventRow
with_event e now row =
    if is_downgrade row.event.completeness e.completeness then row else record row {
      event = record e {
        id = row.event.id;
        sent_by_nanci = row.event.sent_by_nanci || e.sent_by_nanci;
      };
      updated_at = now;
    }

abbrev pub new_event : Event → ℕ → EventRow
new_event e now = record { event = e; document_id = none; created_at = now; updated_at = now }

unfoldable pub upsert_event_row : Event → ℕ → Tables → Result Tables
unfolding allowed_event has_event
upsert_event_row e now t =
    if not (allowed_event e)
    then fail constraint
    else if has_event e t
    then ok (record t { events = update_where (same_event e) (with_event e now) t.events })
    else guarded (not (any_by (λ (row : EventRow). bytes_eq row.event.id e.id) t.events))
        (record t { events = new_event e now ∷ t.events })

-- LinkNFeEventsToDocument
abbrev is_unlinked : Option Bytes → Bool
is_unlinked none = true
is_unlinked (some id) = false

abbrev pub link : Bytes → EventRow → EventRow
link id row = record row { document_id = some id }

abbrev pub link_event_rows : Bytes → Bytes → Tables → Tables
link_event_rows id chave t = record t {
  events =
      update_where (λ row. of_chave chave row && is_unlinked row.document_id) (link id) t.events;
}

-- InsertNFeManifestacao
unfoldable pub insert_manifestacao_row : Bytes → ManifestacaoRecord → ℕ → Tables → Result Tables
insert_manifestacao_row id item now t =
    guarded
      (not (any_by (λ (row : ManifestacaoRow). bytes_eq row.id id) t.manifestacoes)
        && any_by (λ (c : CompanyRow). bytes_eq c.id item.company_id) t.companies)
      (record t {
        manifestacoes = record { id = id; sent = item; created_at = now } ∷ t.manifestacoes;
      })
