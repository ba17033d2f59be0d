-- ===== src/Core/Mock/Examples.antt =====
-- Mock backends at concrete inputs.
use chen.Common.{◌+◌, codes, ◌≡◌, refl, length}
use chen.Common.Result.{raised}
use chen.Core.Expert.{zero_division}
use chen.Core.Mock.{Hashes, MockBackend, encode, decimal, four_decimals}

abbrev hashes : Hashes
hashes = record {
  utf8 = λ text. text;
  keyed = λ seed chunk. seed + length chunk;
  short = λ text. length text;
  hex = λ text. text;
  repr = λ text. text;
  strip = λ text. text;
}

abbrev small : MockBackend
small = record {
  params_m = 3000;
  model_id = codes "small";
  n_layers = 2;
  n_heads = 2;
  head_dim = 4;
  seed = 42;
  role_hint = codes "analyst";
}

abbrev large : MockBackend
large = record small { model_id = codes "large"; n_layers = 3 }

four : four_decimals 123 ≡ codes "0.0123"
unfolding four_decimals
four = refl

three : decimal 305 ≡ codes "305"
unfolding decimal
three = refl

-- An array without entries cannot be filled.
headless : encode hashes (record small { n_heads = 0 }) (codes "hello") ≡ raised zero_division
unfolding encode
headless = refl
