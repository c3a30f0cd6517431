-- ===== src/Nfe/Manifestacao/Prazos.antt =====
-- When an operation is deemed confirmed.
use nanci.Prelude.{
  ℕ, suc, ◌+◌, ◌*◌, ◌<◌, ◌≡◌, refl, ◌↔◌, ◌⊎◌, inl, inr, arith, Bool, true, false, not, ◌&&◌, ◌||◌,
  Option, none, some, ltb, if◌then◌else◌,
}
use nanci.Nfe.Types.{
  Manifestacao, nenhuma, ciente, confirmada, desconhecida, nao_realizada_manifestada,
  CompanyDocument, CompanyRole, destinatario, emitente, transportador, autorizado, no_role,
  Situacao, autorizada, denegada, cancelada, other_situacao,
}
use nanci.Nfe.Manifestacao.{
  tacitly_confirmed, manifestacao_prazos, start_of, day, is_destinatario, is_autorizada,
  open_manifestacao, due, is_zero_time, is_before,
}

-- The law: the destinatário of an authorized NF-e let 90 days pass without a conclusive manifestação.
pub record IsDeemed (doc : CompanyDocument) (now : ℕ) : Type 0 where
  pub role : doc.company_role ≡ destinatario
  pub situacao : doc.document.situacao ≡ autorizada
  pub undecided : (doc.manifestacao ≡ nenhuma) ⊎ (doc.manifestacao ≡ ciente)
  pub start : ℕ
  pub dated : start_of doc.document.authorized_at doc.document.issue_date ≡ some start
  pub late : start + 90 * day < now

destinatario_iff : (r : CompanyRole) → is_destinatario r ≡ true → r ≡ destinatario
destinatario_iff destinatario h = refl
destinatario_iff emitente h = absurd (cc)
destinatario_iff transportador h = absurd (cc)
destinatario_iff autorizado h = absurd (cc)
destinatario_iff no_role h = absurd (cc)

autorizada_iff : (s : Situacao) → is_autorizada s ≡ true → s ≡ autorizada
autorizada_iff autorizada h = refl
autorizada_iff denegada h = absurd (cc)
autorizada_iff cancelada h = absurd (cc)
autorizada_iff (other_situacao s) h = absurd (cc)

undecided_of : (m : Manifestacao) → open_manifestacao m ≡ true → (m ≡ nenhuma) ⊎ (m ≡ ciente)
undecided_of nenhuma h = inl refl
undecided_of ciente h = inr refl
undecided_of confirmada h = absurd (cc)
undecided_of desconhecida h = absurd (cc)
undecided_of nao_realizada_manifestada h = absurd (cc)

open_of : (m : Manifestacao) → (m ≡ nenhuma) ⊎ (m ≡ ciente) → open_manifestacao m ≡ true
open_of m (inl e) = rw e refl
open_of m (inr e) = rw e refl

-- the tests, in the order of the code
tests :
    (a b c d : Bool)
    → (if not a || not b then false else if not c then false else d) ≡ true
    → (a ≡ true) × (b ≡ true) × (c ≡ true) × (d ≡ true)
tests a b c d h = ground (arith, h)

late_of :
    (start : Option ℕ) (now : ℕ)
    → (not (is_zero_time (due start 90)) && is_before (due start 90) (some now)) ≡ true
    → (s : ℕ) × (start ≡ some s) × (s + 90 * day < now)
late_of none now h = absurd (cc)
late_of (some s) now h = (s, refl, ground (arith, h))

-- TacitlyConfirmed is the presumption of the law, and a ciência does not stop it.
pub tacitly_confirmed-IsDeemed :
    (doc : CompanyDocument) (now : ℕ) → (tacitly_confirmed doc now ≡ true) ↔ IsDeemed doc now
unfolding tacitly_confirmed manifestacao_prazos
tacitly_confirmed-IsDeemed doc now = (
  λ h.
      let start = start_of doc.document.authorized_at doc.document.issue_date in
      let (a, b, c, d) =
        tests (is_destinatario doc.company_role) (is_autorizada doc.document.situacao)
          (open_manifestacao doc.manifestacao)
          (not (is_zero_time (due start 90)) && is_before (due start 90) (some now)) h in
      let (s, dated, late) = late_of start now d in
      record {
        role = destinatario_iff doc.company_role a;
        situacao = autorizada_iff doc.document.situacao b;
        undecided = undecided_of doc.manifestacao c;
        start = s;
        dated = dated;
        late = late;
      },
  λ x.
      let late : ltb (suc (x.start + 90 * day)) (suc now) ≡ true = ground (arith, x.late) in
      rw (x.role, x.situacao, open_of doc.manifestacao x.undecided, x.dated) late,
)
