-- ===== src/Dfe/Protocol.antt =====
-- internal/dfe/parse.go, KeyFromProtocol: the access key of a document by its protocol and its signed Id.
pub mod Agree
use nanci.Prelude.{
  Bool, true, false, not, ◌&&◌, List, [], ◌∷◌, ◌++◌, Option, none, some, ◌==◌, if◌then◌else◌, ◌⊎◌,
  inl, inr,
}
use nanci.Text.{Bytes, Unicode, bytes_eq, is_empty}
use nanci.Dfe.AccessKey.{KeyProblem, parse_access_key}

pub data ProtocolProblem : Type 0 where
  missing_key : ProtocolProblem
  mismatch : Bytes → Bytes → ProtocolProblem
  invalid_key : KeyProblem → ProtocolProblem

-- `missing infProt; using Id …`
pub data Warning : Type 0 where
  using_id : Bytes → Warning

-- what follows the prefix, where the text has it
abbrev after_prefix : Bytes → Bytes → Option Bytes
after_prefix [] s = some s
after_prefix (c ∷ p) [] = none
after_prefix (c ∷ p) (d ∷ s) = if c == d then after_prefix p s else none

abbrev or_whole : Option Bytes → Bytes → Bytes
or_whole none s = s
or_whole (some t) s = t

-- strings.TrimPrefix
abbrev pub trim_prefix : Bytes → Bytes → Bytes
trim_prefix p s = or_whole (after_prefix p s) s

abbrev pub labelled : KeyProblem ⊎ Bytes → ProtocolProblem ⊎ Bytes
labelled (inl problem) = inl (invalid_key problem)
labelled (inr key) = inr key

module _ ⦃u : Unicode⦄ where
  unfoldable pub key_from_protocol :
      Bytes → Bytes → Bytes → List Warning → (ProtocolProblem ⊎ Bytes) × List Warning
  key_from_protocol kind prot_chave id warnings =
      let id_chave = trim_prefix kind id in
      if is_empty prot_chave && is_empty id_chave
      then (inl missing_key, warnings)
      else if is_empty prot_chave
      then (labelled (parse_access_key id_chave), warnings ++ (using_id id ∷ []))
      else if not (is_empty id_chave) && not (bytes_eq id_chave prot_chave)
      then (inl (mismatch prot_chave id), warnings)
      else (labelled (parse_access_key prot_chave), warnings)
