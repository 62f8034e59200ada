-- ===== src/Tests/Runs.antt =====
-- app/worker/main.py and app/pipeline/runner.py at concrete inputs.
use rfp_shred.Prelude.{
  Bool, ℕ, suc, zero, [], codes, false, none, refl, some, sort_by, true, ◌+◌, ◌∷◌, ◌≡◌, ◌⊎◌,
}
use rfp_shred.Results.{returned}
use rfp_shred.Models.{Session, JobStatus}
use rfp_shred.Pipeline.Mine.Calls.{nonneg, response, Client, MineState}
use rfp_shred.Intake.Pagemap.{Tools}
use rfp_shred.Worker.Runner.{Outside, RunSettings}
use rfp_shred.Tests.Samples.{
  locked_rfp, segment, one_block, plant, waiting_job, spans, silent_run, ascii,
}
use rfp_shred.Worker.Process.{newest_run, process_one_job}
use rfp_shred.Worker.Settled.{process_one_job-Concludes, process_one_job_settles, Concludes, JobIs}
use rfp_shred.Providers.{
  answered, http_error, is_degraded, probe_once, OpenAiBody, current_state, probe, ProviderSettings,
  HttpReply,
}
use rfp_shred.Providers.Outage.{probe_once-resumes, IsOut}
use rfp_shred.Queue.{claimed, claim_next_job}

abbrev tools : Tools
tools = record {
  pdfplumber = some (λ f.
      returned (some (codes "the offeror shall submit a plan for the whole of the work") ∷ []));
  pypdf = λ f. returned [];
  sub_pdf = λ f ps. returned [];
  ocrmypdf = none;
  soffice = none;
  libreoffice_lock = true;
}

-- The client answers every call with one item.
abbrev answers : Client
answers n = response (record {
  tokens_in = 100;
  tokens_out = 20;
  stopped_by_length = false;
  payload = some (
      record {
        clause_id = codes "l.1";
        section = codes "l";
        page = nonneg 1;
        text = codes "shall submit a plan";
        excerpt = codes "the offeror shall";
        is_requirement = true;
      }
      ∷ []);
})

abbrev pub outside : Outside
outside = record {
  unicode = ascii;
  matching_blocks = one_block;
  tools = tools;
  client = answers;
  file = λ p. some [];
  suffix = λ p. ".pdf";
  open_zip = λ b. none;
  write_entry = λ n. none;
  merge_pdfs = λ fs. returned [];
  segment =
      λ ps. record { spans = spans; full = codes "the offeror shall"; segments = segment ∷ [] };
  now = λ st. 77;
  new_output = λ n. 90 + n;
  new_row = λ n. 100 + n;
  describe = λ r. [];
  describe_failure = λ f. [];
}

abbrev pub settings : RunSettings
settings = record {
  max_zip_entries = 10;
  max_upload_bytes = 1000;
  model_max_tokens = 4000;
  model_input_price_per_m = 3;
  model_output_price_per_m = 15;
}

abbrev after_job : Session
after_job = (process_one_job outside settings 80 false 9 9 "w" plant).1

the_job :
    process_one_job outside settings 80 false 9 9 "w" plant
    ≡ (some (claimed 9 9 "w" waiting_job), after_job)
unfolding process_one_job claim_next_job sort_by
the_job = refl

process_one_job_settles_example :
    JobIs 3 JobStatus.completed (some 80) after_job ⊎ JobIs 3 JobStatus.failed (some 80) after_job
process_one_job_settles_example =
    process_one_job_settles outside settings 80 9 9 "w" plant after_job
      (claimed 9 9 "w" waiting_job) the_job

the_run : newest_run 1 plant ≡ some silent_run
unfolding sort_by
the_run = refl

process_one_job-Concludes_example :
    Concludes 80 (claimed 9 9 "w" waiting_job) locked_rfp silent_run plant after_job
process_one_job-Concludes_example =
    process_one_job-Concludes outside settings 80 9 9 "w" plant after_job
      (claimed 9 9 "w" waiting_job) locked_rfp silent_run the_job refl the_run

abbrev providers : ProviderSettings
providers = record { model_provider = "openai"; openai_api_key = "k"; anthropic_api_key = "a" }

abbrev no_reply : HttpReply Bool
no_reply = http_error

-- One provider answers with an error, the other cannot be reached.
an_outage :
    is_degraded (λ t. t) providers (some (probe_once providers (answered 503 true) no_reply "now"))
    ≡ true
unfolding is_degraded probe_once current_state probe
an_outage = refl

probe_once-resumes_example :
    let after =
      process_one_job outside settings 80
        (is_degraded
          (λ t. t)
          providers
          (some (probe_once providers (answered 503 true) no_reply "now")))
        9
        9
        "w"
        plant in
    (IsOut (λ t. t) providers (answered 503 true) no_reply × (after ≡ (none, plant)))
    ⊎ ((¬ IsOut (λ t. t) providers (answered 503 true) no_reply)
        × (after ≡ process_one_job outside settings 80 false 9 9 "w" plant))
probe_once-resumes_example =
    probe_once-resumes outside settings (λ t. t) providers (answered 503 true) no_reply "now" "w" 9
      9 80 plant

-- The second request is refused for its key.
abbrev refusing : ℕ → HttpReply OpenAiBody
refusing zero = http_error
refusing (suc n) =
    answered 401 (record { choices = []; prompt_tokens = none; completion_tokens = none })

abbrev at_start : MineState
at_start = record {
  calls_made = 0;
  slept = 0;
  result = record { items = []; calls = []; failed_chunks = 0 };
}

abbrev at_end : MineState
at_end = record at_start { calls_made = 2; slept = 2 }
