-- ===== src/Tests/Mining.antt =====
-- app/pipeline/mine.py and transform.py at concrete inputs.
use rfp_shred.Prelude.{
  sort_by, map, All, Text, [], arith, codes, false, if◌then◌else◌, refl, some, true, ℕ, ◌%◌, ◌*◌,
  ◌+◌, ◌==◌, ◌∷◌, ◌≡◌, ◌≤◌,
}
use rfp_shred.Models.{Session, Requirement}
use rfp_shred.Pipeline.Items.{empty_result}
use rfp_shred.Pipeline.Audit.{outside_range, Reason, AuditOutcome}
use rfp_shred.Pipeline.Filter.{FilterOutcome}
use rfp_shred.Pipeline.Mine.Calls.{
  nonneg, negative, ChunkItem, ModelResponse, Client, response, rate_limited, MineState,
}
use rfp_shred.Pipeline.Mine.Process.{finished, mine_chunks, estimate_requirements}
use rfp_shred.Pipeline.Mine.Effort.{state_of, mine_chunks-effort}
use rfp_shred.Pipeline.Mine.Citations.{Between, Placed, mine_chunks-Placed}
use rfp_shred.Pipeline.Transform.{persist_mine_result, surviving, key_eq}
use rfp_shred.Pipeline.TextUtils.Normalize.{normalize_clause_id, normalize_text}
use rfp_shred.Pipeline.Transform.Kept.{IsPlaced}
use rfp_shred.Pipeline.Transform.Carried.{IsCarried, persist_mine_result-IsCarried}
use rfp_shred.Tests.Samples.{row, ascii, chunk, quoted, made_up, plant}

abbrev claimed_item : ChunkItem
claimed_item = record {
  clause_id = codes "l.1";
  section = codes "l";
  page = nonneg 99;
  text = codes "shall submit";
  excerpt = codes "shall submit";
  is_requirement = true;
}

abbrev good_response : ModelResponse
good_response = record {
  tokens_in = 10;
  tokens_out = 20;
  stopped_by_length = false;
  payload = some (claimed_item ∷ record claimed_item { page = negative 1 } ∷ []);
}

-- Every third call is turned away.
abbrev client : Client
client n = if n % 3 == 0 then rate_limited else response good_response

abbrev final : MineState
final = state_of (mine_chunks client ascii 8192 (chunk ∷ chunk ∷ []))

mined : mine_chunks client ascii 8192 (chunk ∷ chunk ∷ []) ≡ finished final
unfolding mine_chunks estimate_requirements
mined = refl

mine_chunks-effort_example :
    (state_of (mine_chunks client ascii 8192 (chunk ∷ chunk ∷ []))).calls_made ≤ 42 * 2
mine_chunks-effort_example = mine_chunks-effort client ascii 8192 (chunk ∷ chunk ∷ [])

chunk-Between : Between 1 6 chunk
chunk-Between = record { above = omega arith; forward = omega arith; below = omega arith }

mine_chunks-Placed_example :
    Placed 1 6 0 (state_of (mine_chunks client ascii 8192 (chunk ∷ chunk ∷ []))).result.items
mine_chunks-Placed_example =
    mine_chunks-Placed 1 6 client ascii 8192 (chunk ∷ chunk ∷ [])
      (chunk-Between, (chunk-Between, tt))

abbrev audited : AuditOutcome
audited = record { passed = quoted ∷ []; failures = [] }

abbrev sorted_out : FilterOutcome
sorted_out = record { requirements = quoted ∷ []; filtered = [] }

abbrev described : Reason → Text
described r = []

abbrev hundred : ℕ → ℕ
hundred n = 100 + n

-- A row that the new extraction finds again, with a response.
abbrev answered_row : Requirement
answered_row = record (row 1) {
  clause_id = codes "l.1";
  body = codes "shall submit a plan";
  response = codes "we will";
}

abbrev answered_plant : Session
answered_plant = record plant { requirements = row 2 ∷ answered_row ∷ [] }

abbrev persisted : Session
persisted =
    (persist_mine_result ascii hundred hundred described 1 6 empty_result audited sorted_out
      answered_plant).1

the_response : map (λ (r : Requirement). r.response) persisted.requirements ≡ codes "we will" ∷ []
unfolding persist_mine_result sort_by key_eq normalize_clause_id normalize_text
the_response = refl

persist_mine_result-IsCarried_example :
    All (IsCarried answered_plant.requirements) persisted.requirements
    × All
        (IsPlaced ascii 1 answered_plant.requirements persisted.requirements)
        (surviving ascii audited.passed)
persist_mine_result-IsCarried_example =
    persist_mine_result-IsCarried ascii hundred hundred described 1 6 empty_result audited
      sorted_out answered_plant

abbrev failed_once : AuditOutcome
failed_once = record {
  passed = [];
  failures = record { item = made_up; reason = outside_range 9 } ∷ [];
}

abbrev dropped : Session
dropped =
    (persist_mine_result ascii hundred hundred described 1 6 empty_result failed_once sorted_out
      plant).1
