-- ===== src/Server/Routes/Examples.antt =====
-- Requests at concrete inputs.
use chen.Common.{
  ℕ, ◌+◌, ◌≤◌, Text, String, codes, true, false, ◌≡◌, refl, sym, ◌∙◌, none, List, [], ◌∷◌, ◌++◌,
  length, take, map, ltb, text_key,
}
use chen.Common.Result.{ok, raised}
use chen.Core.Expert.{value_error, backend_failed, Backend}
use chen.Server.Messages.{
  is_valid, fits, InferRequest, InferResponse, ExpertMetricsModel, RunDetail, failed,
}
use chen.Server.Garage.{Outside, build_experts}
use chen.Server.Routes.{Formats, App, run_request, infer, get_run}
use chen.Server.Routes.Streaming.{StreamEvent, FinalEvent, done, infer_stream}
use chen.Server.Routes.Saved.{get_run-infer, same_config_overwrites}
use chen.Server.Routes.Streamed.{AreEvents, IsRest, at_time, infer_stream-infer}
use chen.Server.Routes.Answers.{mock-infer, mock_cascade-sequence}

abbrev silent : Backend
silent = record {
  params_m = 7;
  supports_kv_cache = false;
  generate = λ text n. raised backend_failed;
  encode = λ text. raised backend_failed;
  decode = λ c n. raised backend_failed;
  transfer_cache = λ c. raised backend_failed;
  count_tokens = none;
}

abbrev outside : Outside ℕ
outside = record {
  hashes = record {
    utf8 = λ text. text;
    keyed = λ seed chunk. seed + length chunk;
    short = λ text. length text;
    hex = λ text. text;
    repr = λ text. text;
    strip = λ text. text;
  };
  hf = λ role_hint params_m. silent;
  vllm = λ params_m. silent;
  llama_cpp = λ params_m. silent;
  more = λ i j. ltb j i;
  score = λ text e. 1;
  passes = λ i. true;
  embedder = record {
    digest = λ role expert_name text. expert_name;
    embed = λ text. [];
    closer = λ q v w. false;
  };
  clock = λ n. n;
  cost = record { input_per_1m = 150000; output_per_1m = 600000 };
}

abbrev formats : Formats ℕ (List String)
formats = record {
  json = record { dumps = λ names. names; loads = λ names. ok names; loads-dumps = λ names. refl };
  zero_float = 0;
  cost_usd = λ a. a.total_cost_usd;
  latency_ms = λ a. 0;
  ratio = λ r. r.0;
  dumps = λ c. c.phase ∷ c.max_tokens ∷ codes c.backend ++ codes c.router;
  utf8 = λ text. text;
  sha256_hex = λ bytes. bytes;
  now = codes "2026";
  by_time = λ rows. rows;
}

abbrev request : Text → ℕ → InferRequest
request prompt phase = record {
  prompt = prompt;
  phase = phase;
  backend = "mock";
  max_tokens = 128;
  router = "logistic";
  save_run = true;
  stream = false;
  tenant_id = none;
  analyst_model = none;
  reasoner_model = none;
  coder_model = none;
  synthesizer_model = none;
  trace_id = none;
}

abbrev app : App ℕ (List String)
app = record { events = []; rows = [] }

mock-infer_example :
    (p : InferResponse ℕ) × ((infer outside formats (request (codes "hi") 3) app).0 ≡ ok p)
    × (map (λ (m : ExpertMetricsModel). m.expert_name) p.per_expert ≡ p.selected_experts)
    × (1 ≤ length p.per_expert)
    × (length p.per_expert ≤ 3)
unfolding is_valid fits
mock-infer_example = mock-infer outside formats (request (codes "hi") 3) app refl refl

-- Two answers to compare.
answer :
    (req : InferRequest) (s : App ℕ (List String))
    → req.backend ≡ "mock"
    → is_valid req ≡ true
    → (p : InferResponse ℕ) × ((infer outside formats req s).0 ≡ ok p)
answer req s mock valid =
    let (p, answered, names, least, most) = mock-infer outside formats req s mock valid in
    (p, answered)

abbrev hi : InferRequest
hi = request (codes "hi") 1

abbrev hello : InferRequest
hello = request (codes "hello") 1

hi_answer : (p : InferResponse ℕ) × ((infer outside formats hi app).0 ≡ ok p)
unfolding is_valid fits
hi_answer = answer hi app refl refl

hello_answer :
    (p : InferResponse ℕ) × ((infer outside formats hello (infer outside formats hi app).1).0
      ≡ ok p)
unfolding is_valid fits
hello_answer = answer hello (infer outside formats hi app).1 refl refl

get_run-infer_example :
    (d : RunDetail ℕ) × (get_run formats hi_answer.0.run_id (infer outside formats hi app).1 ≡ ok d)
    × (d.output ≡ hi_answer.0.output)
    × (d.selected_experts ≡ hi_answer.0.selected_experts)
    × (d.summary.total_tokens ≡ hi_answer.0.total_tokens)
    × (d.summary.total_cost_usd ≡ hi_answer.0.total_cost_usd)
    × (d.config_hash ≡ hi_answer.0.config_hash)
    × (d.kv_transfers ≡ hi_answer.0.kv_transfers)
    × (d.summary.prompt_preview ≡ take 80 (codes "hi"))
get_run-infer_example = get_run-infer outside formats hi app hi_answer.0 refl hi_answer.1

same_config_overwrites_example :
    (hi_answer.0.run_id ≡ hello_answer.0.run_id)
    × ((d : RunDetail ℕ) × (get_run formats hi_answer.0.run_id
            (infer outside formats hello (infer outside formats hi app).1).1
          ≡ ok d)
        × (d.output ≡ hello_answer.0.output)
        × (d.summary.prompt_preview ≡ take 80 (codes "hello")))
same_config_overwrites_example =
    same_config_overwrites outside formats hi hello app hi_answer.0 hello_answer.0 refl refl
      (refl, refl, refl, refl) hi_answer.1 hello_answer.1
      (mock_cascade-sequence outside formats hi app hi_answer.0 refl refl hi_answer.1
        ∙ sym (
            mock_cascade-sequence outside formats hello (infer outside formats hi app).1
              hello_answer.0 refl refl hello_answer.1))

abbrev later : Formats ℕ (List String)
later = at_time formats (codes "later") (λ a. 9)

infer_stream-infer_example :
    (es : List (StreamEvent ℕ)) × (r : FinalEvent ℕ) × ((infer_stream outside later
        (λ m. 4)
        5
        hi
        app).0
      ≡ ok (es ++ done r ∷ []))
    × AreEvents 0 hi_answer.0.per_expert es
    × IsRest ℕ hi_answer.0 r
    × ((infer_stream outside later (λ m. 4) 5 hi app).1.rows ≡ (infer outside later hi app).1.rows)
    × ((infer_stream outside later (λ m. 4) 5 hi app).1.events ≡ [])
infer_stream-infer_example =
    infer_stream-infer outside formats (codes "later") (λ a. 9) (λ m. 4) 5 hi app hi_answer.0
      hi_answer.1

abbrev unknown : InferRequest
unknown = record hi { backend = "gpu" }

unknown_raises : (infer outside formats unknown app).0 ≡ raised (failed value_error)
unfolding infer run_request build_experts
unknown_raises = refl
