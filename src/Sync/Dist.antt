-- ===== src/Sync/Dist.antt =====
-- internal/sync/dist.go and the Fetch of internal/sync/source_nfse.go: how an answer of a distribution
-- becomes a batch.
pub mod Rules
mod Tests
use nanci.Prelude.{
  ℕ, ◌+◌, String, max, Bool, true, false, List, [], ◌∷◌, ◌++◌, map, Option, none, some, leb,
  if◌then◌else◌,
}
use nanci.Sync.Error.{Err, plain, StopReason, unset, empty_limit, caught_up, consumo_indevido}
use nanci.Sync.Types.{Item, Batch}
use nanci.Sync.Env.{Result, ok, fail}
use nanci.Sync.Rows.{hour}
use nanci.Text.{Bytes, codes, bytes_eq}

-- distWaitAfterStop, in seconds
abbrev pub dist_wait_after_stop : ℕ
dist_wait_after_stop = hour

-- the cStat values 138, 137 and 656, and any other
pub data CStat : Type 0 where
  documento_localizado nenhum_documento uso_indevido : CStat
  other_cstat : String → CStat

-- a docZip
pub record DocZip : Type 0 where
  pub nsu : ℕ
  pub schema : String
  pub content : String

-- sefaz.DistResult
pub record DistResult : Type 0 where
  pub c_stat : CStat
  pub ult_nsu : ℕ
  pub max_nsu : ℕ
  pub docs : List DocZip

module _ (is_event : String → Bool) where
  abbrev pub item_of : DocZip → Item
  item_of doc = record {
    nsu = doc.nsu;
    schema = doc.schema;
    payload = doc.content;
    is_event = is_event doc.schema;
  }

  abbrev going : DistResult → ℕ → List Item → Batch
  going resp cursor items = record {
    items = items;
    ult_nsu = resp.ult_nsu;
    max_nsu = resp.max_nsu;
    next_cursor = max cursor resp.ult_nsu;
    done = false;
    stop_reason = unset;
    wait_until = none;
  }

  abbrev stopping : StopReason → ℕ → Batch → Batch
  stopping reason now batch = record batch {
    done = true;
    stop_reason = reason;
    wait_until = some (now + dist_wait_after_stop);
  }

  -- the switch over the cStat
  abbrev by_cstat : CStat → ℕ → DistResult → ℕ → Result Batch
  by_cstat documento_localizado now resp cursor =
      let batch = going resp cursor (map item_of resp.docs) in
      if leb resp.max_nsu resp.ult_nsu then ok (stopping caught_up now batch) else ok batch
  by_cstat nenhum_documento now resp cursor = ok (stopping caught_up now (going resp cursor []))
  by_cstat uso_indevido now resp cursor = ok (stopping consumo_indevido now (going resp cursor []))
  by_cstat (other_cstat s) now resp cursor = fail (plain "rejeição da SEFAZ")

  unfoldable pub dist_batch : ℕ → DistResult → ℕ → Result Batch
  dist_batch now resp cursor = by_cstat resp.c_stat now resp cursor

-- what CheckTpAmb warns of
pub data TpAmbWarning : Type 0 where
  differs invalid : Bytes → Bytes → TpAmbWarning

abbrev pub producao : Bytes
producao = codes "1"

abbrev pub homologacao : Bytes
homologacao = codes "2"

-- CheckTpAmb: the tpAmb to store, and the warnings with the new one at the end
unfoldable pub check_tp_amb : Bytes → Bytes → List TpAmbWarning → Bytes × List TpAmbWarning
check_tp_amb xml pull warnings =
    if bytes_eq xml []
    then (pull, warnings)
    else if bytes_eq xml pull
    then (xml, warnings)
    else if bytes_eq xml producao
    then (xml, warnings ++ (differs xml pull ∷ []))
    else if bytes_eq xml homologacao
    then (xml, warnings ++ (differs xml pull ∷ []))
    else (pull, warnings ++ (invalid xml pull ∷ []))

-- the documents of an answer of the ADN, as items
pub record AdnResponse : Type 0 where
  pub docs : List Item
  pub ult_nsu : ℕ
  pub max_nsu : ℕ

-- `batch.NextCursor = max(batch.NextCursor, env.NSU)` over the documents
unfoldable pub last_of : ℕ → List Item → ℕ
last_of cursor [] = cursor
last_of cursor (x ∷ xs) = last_of (max cursor x.nsu) xs

-- slices.SortFunc by NSU; it is free in the order of equal NSUs
unfoldable pub insert : Item → List Item → List Item
insert x [] = x ∷ []
insert x (y ∷ ys) = let rest = insert x ys in if leb x.nsu y.nsu then x ∷ y ∷ ys else y ∷ rest

unfoldable pub sort_by_nsu : List Item → List Item
unfolding insert
sort_by_nsu [] = []
sort_by_nsu (x ∷ xs) = insert x (sort_by_nsu xs)

abbrev no_items : List Item → Bool
no_items [] = true
no_items (x ∷ xs) = false

-- Fetch of the NFS-e source, once the ADN has answered
unfoldable pub nfse_batch : AdnResponse → ℕ → Batch
unfolding sort_by_nsu last_of
nfse_batch resp cursor = record {
  items = sort_by_nsu resp.docs;
  ult_nsu = resp.ult_nsu;
  max_nsu = resp.max_nsu;
  next_cursor = last_of cursor resp.docs;
  done = no_items resp.docs;
  stop_reason = if no_items resp.docs then empty_limit else unset;
  wait_until = none;
}
