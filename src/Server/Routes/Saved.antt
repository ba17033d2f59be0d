-- ===== src/Server/Routes/Saved.antt =====
-- What a request leaves in the run store (src/chen/server/routes.py).
use chen.Common.{Text, true, ◌≡◌, refl, inl, inr, List, take, arith, codes_key}
use chen.Common.Result.{ok, Result-cases}
use chen.Core.Pipeline.{PipelineResult}
use chen.Store.{RunRecord, Row, Json}
use chen.Store
use chen.Store.Saved.{get-save}
use chen.Server.Messages.{InferRequest, InferResponse, RunDetail, config_of, summary_of, detail_of}
use chen.Server.Garage.{Outside}
use chen.Server.Routes.{Formats, App, run_request, record_of, stored, response_of, infer, get_run}

module _ {F : Type 0} {J : Type 0} where
  get_run-record :
      (f : Formats F J) (r : RunRecord F) (id : Text) (s : App F J) (rows : List (Row F J))
      → s.rows ≡ Store.save f.json r rows
      → r.run_id ≡ id
      → get_run f id s ≡ ok (detail_of r)
  unfolding get_run
  get_run-record f r id s rows saved same =
      let found = get-save f.json f.zero_float r id rows in
      ground (arith, saved, found, codes_key.same_iff r.run_id id, same)

  infer-saved :
      {S : Type 0} (w : Outside S) (f : Formats F J) (req : InferRequest) (s : App F J)
      (p : InferResponse F)
      → req.save_run ≡ true
      → (infer w f req s).0 ≡ ok p
      → (result : PipelineResult) × (p ≡ response_of f req result)
        × ((infer w f req s).1.rows ≡ Store.save f.json (record_of f req result) s.rows)
  unfolding infer stored
  infer-saved w f req s p saves answered = elim (Result-cases (run_request w req)) [
    | inl (result, ran) ↦ (result, ground (arith, ran, answered), ground (arith, ran, saves))
    | inr (x, raises) ↦ absurd (ground (arith, raises, answered))
  ]

  -- After a request that asks for its run to be saved, `get_run` returns for the run id of the
  -- response the output, the experts, the tokens, the cost, the hash of the configuration and the
  -- number of transfers of the response, and the first 80 characters of the prompt.
  pub get_run-infer :
      {S : Type 0} (w : Outside S) (f : Formats F J) (req : InferRequest) (s : App F J)
      (p : InferResponse F)
      → req.save_run ≡ true
      → (infer w f req s).0 ≡ ok p
      → (d : RunDetail F) × (get_run f p.run_id (infer w f req s).1 ≡ ok d)
        × (d.output ≡ p.output)
        × (d.selected_experts ≡ p.selected_experts)
        × (d.summary.total_tokens ≡ p.total_tokens)
        × (d.summary.total_cost_usd ≡ p.total_cost_usd)
        × (d.config_hash ≡ p.config_hash)
        × (d.kv_transfers ≡ p.kv_transfers)
        × (d.summary.prompt_preview ≡ take 80 req.prompt)
  unfolding response_of record_of detail_of summary_of
  get_run-infer w f req s p saves answered =
      let (result, shown, put) = infer-saved w f req s p saves answered in
      let same : (record_of f req result).run_id ≡ p.run_id = ground (arith, shown) in
      (
        detail_of (record_of f req result),
        get_run-record f (record_of f req result) p.run_id (infer w f req s).1 s.rows put same,
        ground (arith, shown),
        ground (arith, shown),
        ground (arith, shown),
        ground (arith, shown),
        ground (arith, shown),
        ground (arith, shown),
        refl,
      )

  -- Two requests of one phase, backend, router and token limit whose runs select the same experts get
  -- one run id, whatever their prompts and tenants are: if both are saved, `get_run` returns
  -- the second output and the second prompt for the run id of the first response.
  pub same_config_overwrites :
      {S : Type 0} (w : Outside S) (f : Formats F J) (req req' : InferRequest) (s : App F J)
      (p p' : InferResponse F)
      → req'.save_run ≡ true
      → req.save_run ≡ true
      → (req.phase ≡ req'.phase)
        × (req.backend ≡ req'.backend)
        × (req.router ≡ req'.router)
        × (req.max_tokens ≡ req'.max_tokens)
      → (infer w f req s).0 ≡ ok p
      → (infer w f req' (infer w f req s).1).0 ≡ ok p'
      → p.selected_experts ≡ p'.selected_experts
      → (p.run_id ≡ p'.run_id)
        × ((d : RunDetail F) × (get_run f p.run_id (infer w f req' (infer w f req s).1).1 ≡ ok d)
            × (d.output ≡ p'.output)
            × (d.summary.prompt_preview ≡ take 80 req'.prompt))
  unfolding response_of config_of
  same_config_overwrites w f req req' s p p' saves' saves config answered answered' selected =
      let (result, shown, put) = infer-saved w f req s p saves answered in
      let (result', shown', put') = infer-saved w f req' (infer w f req s).1 p' saves' answered' in
      let (phase, backend, router, max_tokens) = config in
      let one : config_of req result ≡ config_of req' result' =
        ground (arith, phase, backend, router, max_tokens, selected, shown, shown') in
      let same : p.run_id ≡ p'.run_id = ground (arith, shown, shown', one) in
      let read = get_run-infer w f req' (infer w f req s).1 p' saves' answered' in
      (same, (read.0, rw same read.1, read.2, read.8))
