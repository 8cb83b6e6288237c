-- ===== src/Tests.antt =====
-- Concrete runs: a pool of eight blocks of two tokens, a prefix cache of at most four entries, two
-- requests. Each theorem that has hypotheses is applied where they hold.
mod Steps
mod Engines
mod Server
mod Services
use flux_llm_inference_engin.Prelude.{
  ℕ, ◌+◌, List, [], ◌∷◌, ◌++◌, ◌≡◌, refl, none, some, true, false, arith, All, range, nat_eq,
  tokens_eq,
}
use flux_llm_inference_engin.Prelude.Dict.{get, put}
use flux_llm_inference_engin.Kv.{Cache}
use flux_llm_inference_engin.Sequence.{Sequence, SamplingParams, new}
use flux_llm_inference_engin.Pool.{blocks_needed, BlockPool}
use flux_llm_inference_engin.Pool.Balance.{Freeable}
use flux_llm_inference_engin.Prefix.{
  PrefixCache, Kv, insert_loop, insert_one, aligned_lengths, evict, evict_loop, candidate_lengths,
  contains, peek, lookup, insert, adopt,
}
use flux_llm_inference_engin.Prefix.Candidates.{IsCandidate, candidate_lengths-exact}
use flux_llm_inference_engin.Prefix.Longest.{Longest, peek-Longest}
use flux_llm_inference_engin.Prefix.Ledger.{Sound}
use flux_llm_inference_engin.Prefix.Ledger.Acquire.{lookup-Sound}
use flux_llm_inference_engin.Prefix.Ledger.Insert.{insert-Sound}
use flux_llm_inference_engin.Prefix.Ledger.Adopt.{adopt-Sound}
use flux_llm_inference_engin.Scheduler.{need_tokens, Scheduler, fcfs, admit, try_allocate}
use flux_llm_inference_engin.Scheduler.Books.{Books, Allocates, try_allocate-Allocates}
use flux_llm_inference_engin.Scheduler.Moved.{IsReady, Moves, ids}
use flux_llm_inference_engin.Scheduler.Admission.{admit-Moves}
use flux_llm_inference_engin.Scheduler.Progress.{LetsFirst, admit-LetsFirst}
use flux_llm_inference_engin.Scheduler.Policies.{admit-fcfs}
use flux_llm_inference_engin.Engine.{Engine}
use flux_llm_inference_engin.Outcome.{ok}
use flux_llm_inference_engin.Worker.{finish_sequence}
use flux_llm_inference_engin.Worker.Acts.{Ends, finish_sequence-Ends}

abbrev prompt : List ℕ
prompt = 5 ∷ 6 ∷ 7 ∷ 8 ∷ []

abbrev params : SamplingParams
params = record {
  temperature = 0;
  top_p = 1000000;
  max_tokens = 4;
  stop_token_ids = 9 ∷ [];
  ignore_eos = false;
}

abbrev request : ℕ → Sequence ℕ ℕ
request id = new id prompt params

abbrev prompt_cache : Cache ℕ
prompt_cache = (prompt, prompt) ∷ []

-- An engine whose logits are a token, and whose cache holds the tokens.
abbrev toy : Engine ℕ ℕ
toy = record {
  prefill = λ tokens. ok (9, (tokens, tokens) ∷ []);
  prefill_from_prefix = λ tokens cache. ok (9, (tokens, tokens) ∷ cache);
  decode = λ token cache. ok (9, cache);
  decode_batch = λ tokens caches. ok (tokens, caches);
  stop_token_ids = 9 ∷ [];
  decode_text = λ tokens. "";
}

abbrev eight_blocks : BlockPool
eight_blocks = record { num_blocks = 8; block_size = 2; free_list = range 8; alloc = []; anon = [] }

abbrev no_entries : PrefixCache ℕ ℕ
no_entries = record {
  max_entries = 4;
  min_tokens = 2;
  block_size = 2;
  entries = [];
  block_pins = [];
  hits = 0;
  misses = 0;
  tokens_saved = 0;
}

abbrev at_start : Kv ℕ ℕ
at_start = record { pool = some eight_blocks; cache = no_entries }

at_start-Sound : Sound at_start
unfolding get
at_start-Sound = record {
  balanced = λ b. omega arith;
  pinned = λ b. refl;
  distinct_alloc = tt;
  distinct_pins = tt;
  distinct_keys = tt;
  keyed = tt;
  idle = tt;
}

insert-Sound_example : Sound (insert 1 prompt (some prompt_cache) (some 9) at_start)
insert-Sound_example = insert-Sound 1 prompt (some prompt_cache) (some 9) at_start at_start-Sound

abbrev stored : Kv ℕ ℕ
stored = insert 1 prompt (some prompt_cache) (some 9) at_start

lookup-Sound_example : Sound (lookup 2 prompt stored).1
lookup-Sound_example =
    lookup-Sound 2 prompt stored
      (insert-Sound 1 prompt (some prompt_cache) (some 9) at_start at_start-Sound)

peek-Longest_example : Longest stored.cache prompt 4 (peek stored.cache prompt)
unfolding insert insert_loop insert_one candidate_lengths aligned_lengths evict evict_loop get put
peek-Longest_example = peek-Longest stored.cache prompt (omega arith)

candidate_lengths-exact_example :
    All (IsCandidate 2 2 4) (candidate_lengths no_entries prompt)
    × ((m : ℕ) → IsCandidate 2 2 4 m → contains m (candidate_lengths no_entries prompt) ≡ true)
candidate_lengths-exact_example = candidate_lengths-exact no_entries prompt (omega arith)

-- The first request holds half of the pool; the second one and a third one wait.
abbrev half_taken : BlockPool
half_taken = record {
  num_blocks = 8;
  block_size = 2;
  free_list = 4 ∷ 5 ∷ 6 ∷ 7 ∷ [];
  alloc = (1, 0 ∷ 1 ∷ 2 ∷ 3 ∷ []) ∷ [];
  anon = [];
}

abbrev running_one : Sequence ℕ ℕ
running_one = record (request 1) {
  block_ids = 0 ∷ 1 ∷ 2 ∷ 3 ∷ [];
  owned_block_ids = 0 ∷ 1 ∷ 2 ∷ 3 ∷ [];
}

abbrev two_wait : Scheduler ℕ ℕ
two_wait = record {
  queue = record { max_waiting = 4; waiting_list = request 2 ∷ request 3 ∷ []; event = true };
  max_batch = 2;
  pool = some half_taken;
  prefix_cache = some no_entries;
  policy = fcfs;
}

half_taken-Books : Books two_wait
unfolding get
half_taken-Books = record {
  balanced = λ b. ground arith;
  pinned = λ b. refl;
  distinct_alloc = (refl, tt);
  distinct_pins = tt;
  distinct_keys = tt;
  keyed = tt;
  idle = tt;
}

two_wait-IsReady : IsReady two_wait
unfolding get
two_wait-IsReady = record {
  books = half_taken-Books;
  once = λ id. ground arith;
  unallocated = (refl, (refl, tt));
}

admit-Moves_example : Moves two_wait (ids (admit 1 two_wait 1).0) (admit 1 two_wait 1).1
admit-Moves_example = admit-Moves 1 two_wait 1 two_wait-IsReady

admit-fcfs_example :
    ids (admit 1 two_wait 1).0 ++ ids (admit 1 two_wait 1).1.queue.waiting_list ≡ 2 ∷ 3 ∷ []
admit-fcfs_example = admit-fcfs 1 two_wait 1 refl two_wait-IsReady

-- Nobody runs, and no prefix is stored.
abbrev idle : Scheduler ℕ ℕ
idle = record two_wait { pool = some eight_blocks; prefix_cache = none }

admit-LetsFirst_example : LetsFirst 2 (admit 1 idle 0).0
unfolding blocks_needed need_tokens
admit-LetsFirst_example =
    admit-LetsFirst 1 idle 0 (request 2) (request 3 ∷ []) eight_blocks refl refl refl refl
      (omega arith) refl

try_allocate-Allocates_example :
    Allocates two_wait (request 2) (try_allocate 1 two_wait (request 2))
unfolding get
try_allocate-Allocates_example = try_allocate-Allocates 1 two_wait (request 2) half_taken-Books refl

adopt-Sound_example :
    Sound (adopt 1 running_one (record { pool = some half_taken; cache = no_entries })).0
unfolding get
adopt-Sound_example =
    adopt-Sound 1 running_one (record { pool = some half_taken; cache = no_entries })
      ((0 ∷ 1 ∷ 2 ∷ 3 ∷ []), refl) half_taken-Books

running_one-Freeable : Freeable two_wait.pool running_one
unfolding get
running_one-Freeable = λ absent. cc

finish_sequence-Ends_example :
    Ends two_wait 1 [] (finish_sequence toy "continuous" running_one two_wait)
finish_sequence-Ends_example =
    finish_sequence-Ends running_one two_wait half_taken-Books running_one-Freeable toy "continuous"
