-- ===== src/Examples/Data.antt =====
-- A small collector: attributes as functions, numbers for floats, one policy, caches of two entries.
use text.Mathlib.Text.{◌==◌ as str_eq}
use text.Mathlib.TextEquality.{eq_iff}
use atlassian_sampling_proce.Base.{
  ℕ, ◌*◌, ◌/◌, ◌≡◌, refl, ap, sym, ◌⊎◌, Option-cases, true, false, Option, none, some, String, List,
  [], ◌∷◌, ltb, if◌then◌else◌, inl, inr, arith,
}
use atlassian_sampling_proce.Library.Lru.{Lru, LruLaws}
use atlassian_sampling_proce.Library.LruList.{Items, lru_list, lru_list-LruLaws}
use atlassian_sampling_proce.Library.Codec.{Codec, CodecLaws}
use atlassian_sampling_proce.Library.Float64.{Float64}
use atlassian_sampling_proce.Library.Pdata.{
  AttributeMapLaws, Bytes, TraceId, Value, str, AttributeMap, Scope, error, Span, Resource,
  ResourceSpans, Traces,
}
use atlassian_sampling_proce.Cache.LruCache.{LruCache}
use atlassian_sampling_proce.Cache.TieredCache.{TieredCache}
use atlassian_sampling_proce.Tracedata.{TraceData, uncompressed}
use atlassian_sampling_proce.Tracedata.Merge.{Metadata}
use atlassian_sampling_proce.Evaluators.Evaluator.{span_count}
use atlassian_sampling_proce.Policy.{Policy}
use atlassian_sampling_proce.Decider.{Externals}
use atlassian_sampling_proce.Processor.Spans.{GroupedTraceData}
use atlassian_sampling_proce.Processor.State.{World, Asp}
use atlassian_sampling_proce.Processor.Exclusive.{TraceId-discrete}

abbrev pub Attributes : Type 0
Attributes = String → Option Value

abbrev pub attrs : AttributeMap Attributes
attrs = record {
  empty = λ k. none;
  get = λ a k. a k;
  put = λ a k v q. if str_eq q k then some v else a q;
  remove = λ a k q. if str_eq q k then none else a q;
}

abbrev pub float : Float64 ℕ
float = record {
  of_ℕ = λ n. n;
  ratio = λ n d. n / d;
  mul = λ x y. x * y;
  div = λ x y. x / y;
  lt = ltb;
  trunc = λ x. x;
  max_uint64_times = λ x. x * 18446744073709551615;
}

abbrev pub ext : Externals Attributes ℕ ℕ String
ext = record {
  attrs = attrs;
  float = float;
  fetch = λ n. some n;
  match_string = str_eq;
  as_string = λ v. "";
}

-- Nothing is compressed in these examples.
abbrev pub codec : Codec Attributes
codec = record {
  marshal_traces = λ t. none;
  unmarshal_traces = λ b. none;
  encode = λ b. b;
  decode = λ b. some b;
}

-- Traces that hold resources only, as many as the bytes.
abbrev pub no_scopes : ResourceSpans (Unit {0})
no_scopes = record { resource = record { attributes = tt }; scope_spans = [] }

abbrev pub write_resources : Traces (Unit {0}) → Option Bytes
write_resources [] = some []
write_resources (rs ∷ rest) = elim rs.scope_spans [
  | [] ↦ elim (write_resources rest) [ none ↦ none | some b ↦ some (0 ∷ b) ]
  | _ ∷ _ ↦ none
]

abbrev pub read_resources : Bytes → Traces (Unit {0})
read_resources [] = []
read_resources (_ ∷ bs) = no_scopes ∷ read_resources bs

abbrev pub resource_codec : Codec (Unit {0})
resource_codec = record {
  marshal_traces = write_resources;
  unmarshal_traces = λ b. some (read_resources b);
  encode = λ b. 7 ∷ b;
  decode = λ b. elim b [ [] ↦ none | _ ∷ bs ↦ some bs ];
}

List-cases : {A : Type 0} (l : List A) → (l ≡ []) ⊎ ((x : A) × (xs : List A) × (l ≡ x ∷ xs))
List-cases [] = inl refl
List-cases (x ∷ xs) = inr (x, xs, refl)

only_no_scopes : (rs : ResourceSpans (Unit {0})) → rs.scope_spans ≡ [] → no_scopes ≡ rs
only_no_scopes rs e = ap (λ l. record { resource = rs.resource; scope_spans = l }) (sym e)

read-write :
    (t : Traces (Unit {0})) (b : Bytes)
    → write_resources t ≡ some b
    → some (read_resources b) ≡ some t
read-write [] b h = ground arith
read-write (rs ∷ rest) b h = elim (List-cases rs.scope_spans) [
  | inl e ↦ elim (Option-cases (write_resources rest)) [
    | inl none_rest ↦ absurd (ground arith)
    | inr (c, e') ↦ ground (arith, only_no_scopes rs e, read-write rest c e')
  ]
  | inr (ss, rest', e) ↦ absurd (ground arith)
]

pub resource_codec-CodecLaws : CodecLaws resource_codec
resource_codec-CodecLaws = record { unmarshal-marshal = read-write; decode-encode = λ b. refl }

abbrev pub cache : Lru TraceId ℕ (Items TraceId ℕ)
cache = lru_list TraceId-discrete

pub cache-LruLaws : LruLaws cache
cache-LruLaws = lru_list-LruLaws TraceId-discrete

abbrev pub id_a : TraceId
id_a = 1 ∷ 2 ∷ 3 ∷ 4 ∷ 5 ∷ 6 ∷ 7 ∷ 8 ∷ 9 ∷ 10 ∷ 11 ∷ 12 ∷ 13 ∷ 14 ∷ 15 ∷ 16 ∷ []

abbrev pub id_b : TraceId
id_b = 9 ∷ 9 ∷ 9 ∷ 9 ∷ 9 ∷ 9 ∷ 9 ∷ 9 ∷ 9 ∷ 9 ∷ 9 ∷ 9 ∷ 9 ∷ 9 ∷ 9 ∷ 9 ∷ []

abbrev pub entries : List (TraceId × ℕ) → LruCache (Items TraceId ℕ)
entries l = record { cache = record { size = 2; items = l }; size = 2; hits = 0; misses = 0 }

abbrev pub scope : Scope Attributes
scope = record { name = "lib"; version = "1"; attributes = λ k. none }

abbrev pub span : Span Attributes
span = record {
  trace_id = id_a;
  span_id = 1 ∷ 1 ∷ 1 ∷ 1 ∷ 1 ∷ 1 ∷ 1 ∷ 1 ∷ [];
  parent_span_id = 0 ∷ 0 ∷ 0 ∷ 0 ∷ 0 ∷ 0 ∷ 0 ∷ 0 ∷ [];
  name = "GET";
  start_timestamp = 100;
  end_timestamp = 250;
  status = error;
  attributes = λ k. if str_eq k "sampling.tail.threshold" then some (str "0x01") else none;
  events = [];
}

abbrev pub plain : Resource Attributes
plain = record { attributes = λ k. none }

abbrev pub batch : Traces Attributes
batch =
    record { resource = plain; scope_spans = record { scope = scope; spans = span ∷ [] } ∷ [] } ∷ []

abbrev pub group_of : TraceId → Resource Attributes → GroupedTraceData Attributes
group_of id r = record {
  id = id;
  resource = r;
  spans = record { span = span; scope_ref = 0; scope = scope } ∷ [];
}

abbrev pub metadata : ℕ → Metadata
metadata n = record {
  arrival_time = 300;
  earliest_start_time = 100;
  latest_end_time = 250;
  span_count = n;
  priority = 2;
  last_low_priority_decision_name = none;
}

abbrev pub stored : TraceData Attributes
stored = record { metadata = metadata 1; underlying = uncompressed batch }

-- The world at time 500 with these decisions.
abbrev pub world_of : List (TraceId × ℕ) → List (TraceId × ℕ) → World Attributes (Items TraceId ℕ)
world_of sampled not_sampled = record {
  heap = λ ref. stored;
  next_ref = 1;
  sampled_decision_cache = entries sampled;
  non_sampled_decision_cache = entries not_sampled;
  telemetry = record { started = true; metrics = [] };
  exported = [];
  now = 500;
  random_span_id = 1 ∷ 2 ∷ 3 ∷ 4 ∷ 5 ∷ 6 ∷ 7 ∷ 8 ∷ [];
}

abbrev pub Tiers : Type 0
Tiers = TieredCache (LruCache (Items TraceId ℕ)) (LruCache (Items TraceId ℕ))

abbrev pub tiers_of : List (TraceId × ℕ) → Tiers
tiers_of l = record { primary = entries l; secondary = entries [] }

abbrev pub asp_of :
    List (TraceId × ℕ) → World Attributes (Items TraceId ℕ) → Asp Attributes Tiers (Items TraceId ℕ)
asp_of l w = record { trace_data = tiers_of l; world = w }

-- Traces of `n` spans are sampled.
abbrev pub policy_of : ℕ → Policy Attributes ℕ ℕ String
policy_of n = record {
  name = "spans";
  emit_single_span_for_not_sampled = false;
  evaluator = span_count n;
  record_decision_from = "";
  decision_grouper = none;
}

pub attrs-Laws : AttributeMapLaws attrs
attrs-Laws = record {
  get-empty = λ k. refl;
  get-put_self = λ a k v. ground (arith, eq_iff k k);
  get-put_ne = λ a k q v ne. ground (arith, eq_iff q k);
  get-remove_self = λ a k. ground (arith, eq_iff k k);
  get-remove_ne = λ a k q ne. ground (arith, eq_iff q k);
}
