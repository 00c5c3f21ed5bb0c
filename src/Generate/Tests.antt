-- ===== src/Generate/Tests.antt =====
-- The driver at a toy decoder that always samples token 7, and a toy tokenizer with four tokens of
-- context.
use burn_lm.Prelude.{
  mem, none, true, if◌then◌else◌, ℕ, ◌+◌, ◌≡◌, refl, false, List, [], ◌∷◌, some, length, replicate,
  map,
}
use burn_lm.Pool.{ok}
use burn_lm.Engine.{Model}
use burn_lm.Generate.{Driver}
use burn_lm.Generate.Stream.{
  Tokenizer, GenerationContext, finish, panics, process_all, push_tokens, emit, get_from,
  is_char_boundary,
}

-- Token 13 makes it panic.
abbrev letters : Tokenizer
letters = record {
  decode = λ tokens. if mem 13 tokens then none else some (map (λ t. 65) tokens);
  streaming_context_size = 4;
}

abbrev plain_letters : Tokenizer
plain_letters = record {
  decode = λ tokens. some (map (λ t. 65) tokens);
  streaming_context_size = 4;
}

nobody_died : (sent : List ℕ) → false ≡ true → panics plain_letters sent ≡ true
nobody_died sent e = cc

-- The state counts the releases.
abbrev counting_model : Model
counting_model = record {
  State = ℕ;
  Logits = ℕ;
  rows = λ l. l;
  vocab = λ l. 8;
  prefill = λ st slot tokens start. (st, ok 1);
  decode = λ st rows. (st, ok (length rows));
  release = λ st slot. st + 1;
  max_context_len = λ st. 16;
  sample = λ st l. (st, ok (replicate l 7));
}

abbrev counting_driver : Driver counting_model
counting_driver = record {
  Prompt = List ℕ;
  tokenize = λ p. p;
  stop_ids = 9 ∷ [];
  lane_count = λ st. 2;
  reset = λ st. 0;
  tokenizer = plain_letters;
  has_died = λ sent. false;
  died_panicking = nobody_died;
}

abbrev two_prompts : List (List ℕ)
two_prompts = (1 ∷ 2 ∷ 3 ∷ []) ∷ (4 ∷ []) ∷ []

abbrev six_sent : GenerationContext
six_sent = record { emitter = 0; sent = 1 ∷ 2 ∷ 3 ∷ 4 ∷ 5 ∷ 6 ∷ [] }

-- Of six tokens the last two are not emitted.
finish_six : finish letters six_sent ≡ some ((65 ∷ 65 ∷ 65 ∷ 65 ∷ []) ∷ [], 6)
unfolding finish panics process_all push_tokens emit get_from is_char_boundary
finish_six = refl

-- A token on which the tokenizer panics makes the join panic.
finish_panics : finish letters (record six_sent { sent = 1 ∷ 2 ∷ 13 ∷ 4 ∷ [] }) ≡ none
unfolding finish panics process_all push_tokens emit get_from is_char_boundary
finish_panics = refl
