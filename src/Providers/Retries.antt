-- ===== src/Providers/Retries.antt =====
-- app/core/model_client.py and app/pipeline/mine.py: which answers of a provider a call is tried again for.
use rfp_shred.Prelude.{List, Option, Text, false, true, ◌<◌, ◌≡◌, ◌≢◌, ◌≤◌, ◌⊎◌}
use rfp_shred.Pipeline.Mine.Calls.{
  on_answer, ChunkItem, CallResult, MineState, Answer, ModelResponse,
}
use rfp_shred.Providers.{http_error, answered, Completion, HttpReply}

-- A provider that is rate limited, has failed, or cannot be reached.
abbrev pub IsTransient {ℓ} : {B : Type ℓ} → HttpReply B → Type 0
IsTransient http_error = Unit
IsTransient (answered status body) = (status ≡ 429) ⊎ (500 ≤ status)

-- An error that the request itself is to blame for.
abbrev pub IsPermanent {ℓ} : {B : Type ℓ} → HttpReply B → Type 0
IsPermanent http_error = true ≡ false
IsPermanent (answered status body) = (status ≢ 429) × ((400 ≤ status) × (status < 500))

module _ {ℓ} {B : Type ℓ} (parse : Text → Option (List ChunkItem)) (complete : B → Completion) where
  -- How the reply to a request is read, and what the loop does on it.
  IsRead : HttpReply B → Answer → Type 0
  IsRead reply a =
      (IsTransient reply
        × ((s : MineState) (retry : CallResult × MineState) → on_answer a s retry ≡ retry))
      ⊎ ((IsPermanent reply × (a ≡ Answer.client_error))
          ⊎ ((r : ModelResponse) × (a ≡ Answer.response r)))
