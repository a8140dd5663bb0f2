-- ===== src/Evaluators/Probabilistic.antt =====
-- internal/evaluators/probabilistic.go and remote_probabilistic.go.
use Prim.Native.Nat.{bit_xor}
use text.Mathlib.Text.{◌==◌ as str_eq}
use atlassian_sampling_proce.Base.{
  ℕ, ◌*◌, ◌%◌, ◌^◌, Option, none, some, String, [], ◌∷◌, leb, if◌then◌else◌,
}
use atlassian_sampling_proce.Base.Text.{bytes_of}
use atlassian_sampling_proce.Library.Pdata.{Bytes, TraceId}
use atlassian_sampling_proce.Library.Float64.{Float64}
use atlassian_sampling_proce.Evaluators.Decision.{Decision, pending, sampled}
use atlassian_sampling_proce.Evaluators.Verdict.{EvalError, fetch_failed, invalid_rate, Verdict}

abbrev pub default_hash_salt : String
default_hash_salt = "default-hash-seed"

-- hash/fnv, New64a: xor with each byte, then times the prime, in 64 bits.
abbrev pub fnv64_offset : ℕ
fnv64_offset = 14695981039346656037

abbrev pub fnv64_prime : ℕ
fnv64_prime = 1099511628211

unfoldable pub fnv64a_write : ℕ → Bytes → ℕ
fnv64a_write h [] = h
fnv64a_write h (b ∷ bs) = fnv64a_write (bit_xor h b * fnv64_prime % 2 ^ 64) bs

unfoldable pub hash_trace_id : String → TraceId → ℕ
unfolding fnv64a_write bytes_of
hash_trace_id salt id = fnv64a_write (fnv64a_write fnv64_offset (bytes_of salt)) id

pub record ProbabilisticSampler : Type 0 where
  pub threshold : ℕ
  pub hash_salt : String

-- `R` is a rate getter extension; `rate_getter` is nil until Start finds it.
pub record RemoteProbabilisticSampler (F R : Type 0) : Type 0 where
  pub rate_getter_ext : String
  pub rate_getter : Option R
  pub default_rate : F
  pub hash_salt : String

unfoldable pub salt_or_default : String → String
salt_or_default salt = if str_eq salt "" then default_hash_salt else salt

unfoldable pub compare_hash : String → TraceId → ℕ → Decision
compare_hash salt id threshold = if leb (hash_trace_id salt id) threshold then sampled else pending

module _ {F : Type 0} (float : Float64 F) where
  unfoldable pub calculate_threshold : F → ℕ
  calculate_threshold r = float.max_uint64_times r

  unfoldable pub new_probabilistic_sampler : String → F → ProbabilisticSampler
  unfolding salt_or_default calculate_threshold
  new_probabilistic_sampler hash_salt sampling_percentage = record {
    threshold = calculate_threshold (float.div sampling_percentage (float.of_ℕ 100));
    hash_salt = salt_or_default hash_salt;
  }

  unfoldable pub new_remote_probabilistic_sampler :
      {R : Type 0} → String → F → String → RemoteProbabilisticSampler F R
  unfolding salt_or_default
  new_remote_probabilistic_sampler hash_salt default_rate rate_getter_ext = record {
    rate_getter_ext = rate_getter_ext;
    rate_getter = none;
    default_rate = default_rate;
    hash_salt = salt_or_default hash_salt;
  }

  -- The rate to use and the error: `fetch` is GetFloat64, `none` its error.
  unfoldable pub current_rate :
      {R : Type 0} → (R → Option F) → RemoteProbabilisticSampler F R → F × Option EvalError
  current_rate fetch s = elim s.rate_getter [
    | none ↦ (s.default_rate, none)
    | some getter ↦ elim (fetch getter) [
      | none ↦ (s.default_rate, some fetch_failed)
      | some remote_rate ↦
          if float.lt remote_rate (float.of_ℕ 0)
          then (s.default_rate, some invalid_rate)
          else (remote_rate, none)
    ]
  ]

  unfoldable pub evaluate_remote :
      {R : Type 0} → (R → Option F) → RemoteProbabilisticSampler F R → TraceId → Verdict
  unfolding current_rate compare_hash calculate_threshold
  evaluate_remote fetch s id =
      let (rate, err) = current_rate fetch s in
      (compare_hash s.hash_salt id (calculate_threshold (float.div rate (float.of_ℕ 100))), err)

unfoldable pub evaluate_probabilistic : ProbabilisticSampler → TraceId → Verdict
unfolding compare_hash
evaluate_probabilistic s id = (compare_hash s.hash_salt id s.threshold, none)
