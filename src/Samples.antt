-- ===== src/Samples.antt =====
-- Small values that the tests of several parts share.
use agentcook.Prelude.{String, ℕ, ◌*◌, ◌/◌, ◌+◌, [], none, ltb, leb}
use agentcook.Prelude.Floats.{Floats}
use agentcook.Chat.{Role, Message}

abbrev pub message : Role → String → Message
message role content = record {
  role = role;
  content = content;
  name = none;
  tool_calls = none;
  tool_call_id = none;
  metadata = [];
}

-- Hundredths stand for floats here.
abbrev pub hundredths : Floats
hundredths = record {
  Float = ℕ;
  le = leb;
  lt = ltb;
  zero = 0;
  one = 100;
  mul = λ a b. a * b / 100;
  int_mul = λ n a. n * a / 100;
  half_pow = λ n k. 100 / (n / k + 1);
}
