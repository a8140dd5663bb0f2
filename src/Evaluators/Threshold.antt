-- ===== src/Evaluators/Threshold.antt =====
-- internal/evaluators/threshold.go: consistent sampling by the sampling.tail.threshold attribute.
use Prim.Native.Nat.{bit_or}
use atlassian_sampling_proce.Base.{
  ℕ, zero, suc, ◌+◌, ◌-◌, ◌*◌, ◌^◌, ◌&&◌, Option, none, some, String, List, [], ◌∷◌, ◌++◌, length,
  ltb, leb, ◌==◌, if◌then◌else◌,
}
use atlassian_sampling_proce.Base.Text.{bytes_of}
use atlassian_sampling_proce.Library.Pdata.{
  Bytes, TraceId, Value, str, bool, int, other, AttributeMap, Span, Traces,
}
use atlassian_sampling_proce.Ptraceutil.{SpanItem, trace_iterator}
use atlassian_sampling_proce.Evaluators.Decision.{pending, sampled}
use atlassian_sampling_proce.Evaluators.Verdict.{Verdict}

abbrev pub sampling_tail_threshold : String
sampling_tail_threshold = "sampling.tail.threshold"

-- 2^56 - 1
abbrev pub max_threshold : ℕ
max_threshold = 0xff_ffff_ffff_ffff

-- 14 hexadecimal characters are 7 bytes.
abbrev pub thresh_attr_max_len : ℕ
thresh_attr_max_len = 14

unfoldable pub hex_digit : ℕ → Option ℕ
hex_digit c =
    if leb b'0' c && leb c b'9'
    then some (c - b'0')
    else (if leb b'a' c && leb c b'f'
        then some (c - b'a' + 10)
        else (if leb b'A' c && leb c b'F' then some (c - b'A' + 10) else none))

-- strconv.ParseUint(s, 16, 64), for a text of at most 16 bytes, which cannot overflow.
unfoldable pub parse_hex_from : ℕ → Bytes → Option ℕ
unfolding hex_digit
parse_hex_from n [] = some n
parse_hex_from n (c ∷ s) = elim (hex_digit c) [
  | none ↦ none
  | some d ↦ parse_hex_from (n * 16 + d) s
]

unfoldable pub parse_uint : Bytes → Option ℕ
unfolding parse_hex_from
parse_uint [] = none
parse_uint (c ∷ s) = parse_hex_from 0 (c ∷ s)

-- strings.Repeat("0", n)
unfoldable pub zeros : ℕ → Bytes
zeros zero = []
zeros (suc n) = b'0' ∷ zeros n

-- What follows a "0x" prefix.
unfoldable pub after_0x : Bytes → Option Bytes
after_0x (c ∷ d ∷ s) = if (c == b'0') && (d == b'x') then some s else none
after_0x (c ∷ []) = none
after_0x [] = none

unfoldable pub parse_threshold : Bytes → Option ℕ
unfolding zeros parse_uint
parse_threshold s =
    if ltb thresh_attr_max_len (length s)
    then none
    else parse_uint (s ++ zeros (thresh_attr_max_len - length s))

-- Value.Str(): empty for another kind of value
unfoldable pub str_of : Value → Bytes
unfolding bytes_of
str_of (str s) = bytes_of s
str_of (bool _) = []
str_of (int _) = []
str_of (other _) = []

unfoldable pub byte_at : Bytes → ℕ → ℕ
byte_at [] i = 0
byte_at (b ∷ bs) zero = b
byte_at (b ∷ bs) (suc i) = byte_at bs i

-- The rightmost 7 bytes of the trace ID.
unfoldable pub get_rv : TraceId → ℕ
unfolding byte_at
get_rv id =
    bit_or
      (bit_or
        (bit_or
          (bit_or (bit_or (bit_or (byte_at id 15) (byte_at id 14 * 2 ^ 8)) (byte_at id 13 * 2 ^ 16))
            (byte_at id 12 * 2 ^ 24))
          (byte_at id 11 * 2 ^ 32))
        (byte_at id 10 * 2 ^ 40))
      (byte_at id 9 * 2 ^ 48)

module _ {A : Type 0} (attrs : AttributeMap A) where
  unfoldable pub get_threshold : Span A → Option ℕ
  unfolding after_0x parse_threshold str_of
  get_threshold span = elim (attrs.get span.attributes sampling_tail_threshold) [
    | none ↦ none
    | some v ↦ elim (after_0x (str_of v)) [ none ↦ none | some s ↦ parse_threshold s ]
  ]

  unfoldable pub lower_threshold : ℕ → Option ℕ → ℕ
  lower_threshold least none = least
  lower_threshold least (some t) = if ltb t least then t else least

  unfoldable pub min_threshold : ℕ → List (SpanItem A) → ℕ
  unfolding lower_threshold
  min_threshold least [] = least
  min_threshold least (item ∷ items) =
      min_threshold (lower_threshold least (get_threshold item.span)) items

  unfoldable pub evaluate_threshold : TraceId → Traces A → Verdict
  evaluate_threshold id current_trace =
      let least = min_threshold max_threshold (trace_iterator current_trace) in
      if least == max_threshold
      then (pending, none)
      else (if leb least (get_rv id) then (sampled, none) else (pending, none))
