-- ===== src/Providers.antt =====
-- app/core/model_client.py and app/core/provider_health.py: the two HTTP adapters, and the probe of the
-- providers. What `resp.json()` gives is a record of the fields that are read, where `none` is a key that
-- is missing or null; an answer below 400 whose body is not JSON is left out. `str.lower` and
-- `json.dumps` come from outside.
pub mod Outage
pub mod Retries
use rfp_shred.Prelude.{
  ==_iff, ==_refl, All, Bool, Bool-cases, List, Option, String, Text, [], ap, arith, codes, eq_iff,
  false, false≢true, if◌then◌else◌, inl, inr, leb, ltb, ltb→lt, lt→ltb, none, not, refl, some,
  str_eq, suc, sym, true, zero, ℕ, ◌&&◌, ◌++◌, ◌+◌, ◌<◌, ◌==◌, ◌||◌, ◌↔◌, ◌∙◌, ◌∷◌, ◌≡◌, ◌≢◌, ◌≤◌,
  ◌⊎◌, is_some,
}
use rfp_shred.Pipeline.Mine.Calls.{ChunkItem, ModelResponse, Answer, Client}

-- What comes of a request: `httpx.HTTPError`, or a status and a body.
pub data HttpReply {ℓ} (B : Type ℓ) : Type ℓ where
  http_error : HttpReply B
  answered : ℕ → B → HttpReply B

-- `ProviderUnavailable` and its subclasses, or the decoded body.
pub data Posted {ℓ} (B : Type ℓ) : Type ℓ where
  provider_rate_limited provider_unavailable provider_client_error : Posted B
  decoded : B → Posted B

-- `_post`
unfoldable pub post {ℓ} : {B : Type ℓ} → HttpReply B → Posted B
post http_error = provider_unavailable
post (answered status body) =
    if status == 429
    then provider_rate_limited
    else if leb 500 status
    then provider_unavailable
    else if leb 400 status
    then provider_client_error
    else decoded body

-- `ModelResponse` of app/core/model_client.py
pub record Completion : Type 0 where
  pub text : Text
  pub tokens_in : ℕ
  pub tokens_out : ℕ
  pub finish_reason : String

pub record OpenAiChoice : Type 0 where
  pub content : Option Text
  pub finish_reason : Option String

pub record OpenAiBody : Type 0 where
  pub choices : List OpenAiChoice
  pub prompt_tokens : Option ℕ
  pub completion_tokens : Option ℕ

-- The parts of an answer: a tool use with an input, of which this is the dump, a text, or another.
pub data Part : Type 0 where
  tool_use : Text → Part
  text_part : Text → Part
  other_part : Part

pub record AnthropicBody : Type 0 where
  pub content : List Part
  pub input_tokens : Option ℕ
  pub output_tokens : Option ℕ
  pub stop_reason : Option String

abbrev pub text_or_empty : Option Text → Text
text_or_empty none = []
text_or_empty (some t) = t

abbrev pub count_or_zero : Option ℕ → ℕ
count_or_zero none = 0
count_or_zero (some n) = n

-- `value or default` of two strings.
abbrev pub string_or : Option String → String → String
string_or none default = default
string_or (some v) default = if str_eq v "" then default else v

abbrev pub first_choice : List OpenAiChoice → OpenAiChoice
first_choice [] = record { content = none; finish_reason = none }
first_choice (c ∷ cs) = c

-- `OpenAIAdapter.complete`, of the decoded body.
abbrev pub openai_completion : OpenAiBody → Completion
openai_completion data_body =
    let choice = first_choice data_body.choices in
    record {
      text = text_or_empty choice.content;
      tokens_in = count_or_zero data_body.prompt_tokens;
      tokens_out = count_or_zero data_body.completion_tokens;
      finish_reason = string_or choice.finish_reason "stop";
    }

abbrev pub tool_inputs : List Part → List Text
tool_inputs [] = []
tool_inputs (tool_use t ∷ ps) = t ∷ tool_inputs ps
tool_inputs (text_part t ∷ ps) = tool_inputs ps
tool_inputs (other_part ∷ ps) = tool_inputs ps

abbrev pub joined_texts : List Part → Text
joined_texts [] = []
joined_texts (tool_use t ∷ ps) = joined_texts ps
joined_texts (text_part t ∷ ps) = t ++ joined_texts ps
joined_texts (other_part ∷ ps) = joined_texts ps

abbrev pub text_of_parts : List Text → List Part → Text
text_of_parts [] ps = joined_texts ps
text_of_parts (t ∷ ts) ps = t

-- `AnthropicAdapter.complete`, of the decoded body.
abbrev pub anthropic_completion : AnthropicBody → Completion
anthropic_completion data_body = record {
  text = text_of_parts (tool_inputs data_body.content) data_body.content;
  tokens_in = count_or_zero data_body.input_tokens;
  tokens_out = count_or_zero data_body.output_tokens;
  finish_reason =
      if str_eq (string_or data_body.stop_reason "end_turn") "max_tokens" then "length" else "stop";
}

-- What the miner sees of a call. `parse` is its reading of the text.
abbrev pub seen : (Text → Option (List ChunkItem)) → Completion → ModelResponse
seen parse c = record {
  tokens_in = c.tokens_in;
  tokens_out = c.tokens_out;
  stopped_by_length = str_eq c.finish_reason "length";
  payload = parse c.text;
}

abbrev pub to_answer {ℓ} :
    {B : Type ℓ} → (Text → Option (List ChunkItem)) → (B → Completion) → Posted B → Answer
to_answer parse complete provider_rate_limited = Answer.rate_limited
to_answer parse complete provider_unavailable = Answer.unavailable
to_answer parse complete provider_client_error = Answer.client_error
to_answer parse complete (decoded body) = Answer.response (seen parse (complete body))

-- The adapter as the client of a run, for the replies to its requests.
abbrev pub adapter {ℓ} :
    {B : Type ℓ} → (Text → Option (List ChunkItem)) → (B → Completion) → (ℕ → HttpReply B) → Client
adapter parse complete replies n = to_answer parse complete (post (replies n))

pub record ProviderSettings : Type 0 where
  pub model_provider : String
  pub openai_api_key : String
  pub anthropic_api_key : String

pub data Adapter : Type 0 where
  openai_adapter anthropic_adapter mock_client : Adapter

abbrev pub provider_name : (String → String) → ProviderSettings → String
provider_name lower settings =
    lower (if str_eq settings.model_provider "" then "mock" else settings.model_provider)

unfoldable pub get_model_client : (String → String) → ProviderSettings → Adapter
get_model_client lower settings =
    if str_eq (provider_name lower settings) "openai"
    then openai_adapter
    else if str_eq (provider_name lower settings) "anthropic"
    then anthropic_adapter
    else mock_client

-- The object of the state file, where `none` is a missing key, and what `current_state` gives.
pub record StateFile : Type 0 where
  pub openai : Option String
  pub anthropic : Option String
  pub checked_at : Option String

pub record ProviderState : Type 0 where
  pub openai : String
  pub anthropic : String
  pub checked_at : Option String

abbrev pub or_unknown : Option String → String
or_unknown none = "unknown"
or_unknown (some v) = v

-- `none` is a file that is missing, or that is not JSON.
unfoldable pub current_state : Option StateFile → ProviderState
current_state none = record { openai = "unknown"; anthropic = "unknown"; checked_at = none }
current_state (some f) = record {
  openai = or_unknown f.openai;
  anthropic = or_unknown f.anthropic;
  checked_at = f.checked_at;
}

unfoldable pub is_degraded : (String → String) → ProviderSettings → Option StateFile → Bool
unfolding current_state
is_degraded lower settings file =
    if str_eq (provider_name lower settings) "mock"
    then false
    else str_eq (current_state file).openai "down" && str_eq (current_state file).anthropic "down"

abbrev pub status_word {ℓ} : {B : Type ℓ} → HttpReply B → String
status_word http_error = "down"
status_word (answered status body) = if ltb status 400 then "ok" else "down"

-- `_probe_openai` and `_probe_anthropic`
unfoldable pub probe {ℓ} : {B : Type ℓ} → String → HttpReply B → String
probe key reply = if str_eq key "" then "unknown" else status_word reply

-- `probe_once`: the file that it writes.
unfoldable pub probe_once {ℓ} :
    {B : Type ℓ} → ProviderSettings → (of_openai of_anthropic : HttpReply B) → String → StateFile
unfolding probe
probe_once settings of_openai of_anthropic now = record {
  openai = some (probe settings.openai_api_key of_openai);
  anthropic = some (probe settings.anthropic_api_key of_anthropic);
  checked_at = some now;
}
