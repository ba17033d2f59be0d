-- ===== src/Core/Mock/Answers.antt =====
-- Pipelines whose experts have deterministic backends (src/chen/backends/mock.py).
use chen.Common.{◌≡◌, ap, List, All, text_key}
use chen.Core.Expert.{Backend, Expert}
use chen.Core.Pipeline.Serving.{get_expert-All}
use chen.Core.Handoff.Rounds.{IsDecoding}
use chen.Core.Mock.{Hashes, MockBackend, as_backend, generate, decode}

abbrev pub IsMock : Hashes → Expert → Type 0
IsMock h e = (b : MockBackend) × (e.backend ≡ as_backend h b)

-- Experts with mock backends always generate a text and decode every cache, so that every
-- pipeline of such experts returns where its names are known.
pub IsMock-IsDecoding : (h : Hashes) (es : List Expert) → All (IsMock h) es → IsDecoding es
unfolding as_backend
IsMock-IsDecoding h es mocks = record {
  serving = record {
    serves = λ n e found text k.
        let (b, same) = get_expert-All (IsMock h) es n e mocks found in
        (generate h b text, ap (λ (x : Backend). x.generate text k) same);
  };
  decodes = λ n e found c k.
      let (b, same) = get_expert-All (IsMock h) es n e mocks found in
      (decode h b c, ap (λ (x : Backend). x.decode c k) same);
}
