-- ===== src/Nfe/Manifestacao.antt =====
-- internal/nfe/manifestacao.go: the manifestação of the destinatário, and its deadlines.
pub mod Walked
pub mod Seen
pub mod Latest
pub mod Prazos
use nanci.Prelude.{
  ℕ, suc, ◌+◌, ◌*◌, Bool, true, false, not, ◌&&◌, ◌||◌, List, [], ◌∷◌, Option, none, some, ltb,
  if◌then◌else◌,
}
use nanci.Text.{Bytes, Unicode}
use nanci.Cnpj.{clean}
use nanci.Nfe.Types.{
  EventType, cancelamento, carta_correcao, ciencia, confirmacao, desconhecimento, nao_realizada,
  unknown_event, Manifestacao, nenhuma, ciente, confirmada, desconhecida, nao_realizada_manifestada,
  Event, Document, CompanyDocument, CompanyRole, destinatario, Situacao, autorizada, is_conclusive,
}
use nanci.Nfe.Participation.{same_party}

-- eventTime
unfoldable pub event_time : Event → Option ℕ
event_time e = elim (e.registered_at) [ some t ↦ some t | none ↦ e.event_at ]

-- A zero time is before every other.
abbrev pub rank : Option ℕ → ℕ
rank none = 0
rank (some t) = suc t

abbrev pub is_before : Option ℕ → Option ℕ → Bool
is_before a b = ltb (rank a) (rank b)

abbrev pub is_zero_time : Option ℕ → Bool
is_zero_time none = true
is_zero_time (some t) = false

-- the variables of the loop
pub record Walk : Type 0 where
  pub result : Manifestacao
  pub latest_conclusive : Option ℕ
  pub earliest_ciencia : Option ℕ
  pub has_conclusive : Bool

abbrev pub walk_start : Walk
walk_start = record {
  result = nenhuma;
  latest_conclusive = none;
  earliest_ciencia = none;
  has_conclusive = false;
}

abbrev pub see_ciencia : Option ℕ → Walk → Walk
see_ciencia at w = record w {
  earliest_ciencia =
      if is_zero_time w.earliest_ciencia
        || (not (is_zero_time at) && is_before at w.earliest_ciencia)
      then at
      else w.earliest_ciencia;
  result = if w.has_conclusive then w.result else ciente;
}

abbrev pub see_conclusive : Manifestacao → Option ℕ → Walk → Walk
see_conclusive m at w =
    if not w.has_conclusive || not (is_before at w.latest_conclusive)
    then record w { result = m; latest_conclusive = at; has_conclusive = true }
    else w

-- the switch over the type of the event
abbrev pub see : EventType → Option ℕ → Walk → Walk
see ciencia at w = see_ciencia at w
see confirmacao at w = see_conclusive confirmada at w
see desconhecimento at w = see_conclusive desconhecida at w
see nao_realizada at w = see_conclusive nao_realizada_manifestada at w
see cancelamento at w = w
see carta_correcao at w = w
see unknown_event at w = w

-- the time that goes with the result
abbrev pub time_of : Manifestacao → Walk → Option ℕ
time_of ciente w = if w.has_conclusive then w.latest_conclusive else w.earliest_ciencia
time_of _ w = if w.has_conclusive then w.latest_conclusive else none

module _ ⦃u : Unicode⦄ where
  abbrev pub counts : Bytes → Event → Bool
  counts company e = e.registered && same_party company e.autor_cnpj

  unfoldable pub walk : Bytes → List Event → Walk → Walk
  unfolding event_time same_party
  walk company [] w = w
  walk company (e ∷ events) w =
      walk company events (if counts company e then see e.type (event_time e) w else w)

  unfoldable pub manifestacao_and_time_from_events : List Event → Bytes → Manifestacao × Option ℕ
  unfolding walk clean
  manifestacao_and_time_from_events events company_cnpj =
      let w = walk (clean company_cnpj) events walk_start in (w.result, time_of w.result w)

abbrev pub day : ℕ
day = 86400

abbrev pub ciencia_warning_days : ℕ
ciencia_warning_days = 10

abbrev pub conclusive_deadline_days : ℕ
conclusive_deadline_days = 90

pub record Deadlines : Type 0 where
  pub ciencia_due : Option ℕ
  pub conclusive_due : Option ℕ

-- Times keep the fixed offset that they were read with, so AddDate adds whole days.
abbrev pub due : Option ℕ → ℕ → Option ℕ
due none days = none
due (some start) days = some (start + days * day)

abbrev pub start_of : Option ℕ → Option ℕ → Option ℕ
start_of (some t) issued = some t
start_of none issued = issued

unfoldable pub manifestacao_prazos : Document → Deadlines
manifestacao_prazos doc =
    let start = start_of doc.authorized_at doc.issue_date in
    record {
      ciencia_due = due start ciencia_warning_days;
      conclusive_due = due start conclusive_deadline_days;
    }

unfoldable pub ciencia_warning : Deadlines → ℕ → Bool
ciencia_warning d now = not (is_zero_time d.ciencia_due) && not (is_before (some now) d.ciencia_due)

abbrev is_destinatario : CompanyRole → Bool
is_destinatario destinatario = true
is_destinatario _ = false

abbrev is_autorizada : Situacao → Bool
is_autorizada autorizada = true
is_autorizada _ = false

abbrev open_manifestacao : Manifestacao → Bool
open_manifestacao nenhuma = true
open_manifestacao ciente = true
open_manifestacao _ = false

unfoldable pub tacitly_confirmed : CompanyDocument → ℕ → Bool
unfolding manifestacao_prazos
tacitly_confirmed doc now =
    let due = (manifestacao_prazos doc.document).conclusive_due in
    if not (is_destinatario doc.company_role) || not (is_autorizada doc.document.situacao)
    then false
    else if not (open_manifestacao doc.manifestacao)
    then false
    else not (is_zero_time due) && is_before due (some now)

-- ConclusiveBlockReason returns a text where this is true.
unfoldable pub conclusive_blocked : Manifestacao → Bool
unfolding is_conclusive
conclusive_blocked m = is_conclusive m
