-- ===== src/Sync/Dist/Tests.antt =====
-- Answers of the distributions.
use nanci.Prelude.{◌≡◌, refl, false, true, [], ◌∷◌, none, some, ltb, if◌then◌else◌, String, Bool}
use nanci.Sync.Error.{caught_up}
use nanci.Sync.Types.{SyncSource}
use nanci.Sync.Env.{ok}
use nanci.Sync.Budget.{check_blocked}
use nanci.Sync.Batch.{record_wait}
use nanci.Sync.Samples.{demo, before, batch, item}
use nanci.Sync.Dist.{
  DistResult, documento_localizado, dist_batch, AdnResponse, nfse_batch, sort_by_nsu, insert,
}
use nanci.Sync.Dist.Rules.{
  Told, dist_batch-Told, IsInOrder, nfse_batch-IsInOrder, record_wait-Blocks,
}

abbrev last_answer : DistResult
last_answer = record { c_stat = documento_localizado; ult_nsu = 9; max_nsu = 9; docs = [] }

abbrev no_event : String → Bool
no_event s = false

caught_up_answer :
    dist_batch no_event 100 last_answer 4
    ≡ ok (record {
      items = [];
      ult_nsu = 9;
      max_nsu = 9;
      next_cursor = 9;
      done = true;
      stop_reason = caught_up;
      wait_until = some 3700;
    })
unfolding dist_batch
caught_up_answer = refl

dist_batch_example : Told no_event 100 last_answer 4 (dist_batch no_event 100 last_answer 4)
dist_batch_example = dist_batch-Told no_event 100 last_answer 4

abbrev unordered : AdnResponse
unordered = record { docs = item 7 ∷ item 5 ∷ []; ult_nsu = 7; max_nsu = 7 }

in_order : (nfse_batch unordered 4).items ≡ item 5 ∷ item 7 ∷ []
unfolding nfse_batch sort_by_nsu insert
in_order = refl

nfse_batch_example : IsInOrder unordered.docs 4 (nfse_batch unordered 4)
nfse_batch_example = nfse_batch-IsInOrder unordered 4

blocks_example :
    check_blocked SyncSource.nfe (record_wait demo batch before).1.db.source 4000 [] ≡ (
      if ltb 4000 5000
      then some (record { source = SyncSource.nfe; until = 5000; reason = batch.stop_reason })
      else none)
blocks_example = record_wait-Blocks demo SyncSource.nfe batch 5000 4000 before refl refl
