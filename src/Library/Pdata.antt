-- ===== src/Library/Pdata.antt =====
-- go.opentelemetry.io/collector/pdata: the messages as records and lists of what the processor
-- reads. A message is a value; moving one is handing the value over. The attribute maps are a
-- type `A` that only `AttributeMap` opens.
use atlassian_sampling_proce.Base.{ℕ, ◌≡◌, ◌≢◌, Bool, Option, none, some, List, String}

abbrev pub Bytes : Type 0
Bytes = List ℕ

-- [16]byte and [8]byte
abbrev pub TraceId : Type 0
TraceId = Bytes

abbrev pub SpanId : Type 0
SpanId = Bytes

-- pcommon.Value. `other` stands for the kinds that the processor never asks for.
pub data Value : Type 0 where
  str : String → Value
  bool : Bool → Value
  -- an int64 as its bit pattern
  int : ℕ → Value
  other : ℕ → Value

-- pcommon.Map: `put` stands for PutStr, PutInt and PutBool.
pub record AttributeMap (A : Type 0) : Type 0 where
  pub empty : A
  pub get : A → String → Option Value
  pub put : A → String → Value → A
  pub remove : A → String → A

pub record AttributeMapLaws {A : Type 0} (attrs : AttributeMap A) : Type 0 where
  pub get-empty : (k : String) → attrs.get attrs.empty k ≡ none
  pub get-put_self : (a : A) (k : String) (v : Value) → attrs.get (attrs.put a k v) k ≡ some v
  pub get-put_ne :
      (a : A) (k q : String) (v : Value) → q ≢ k → attrs.get (attrs.put a k v) q ≡ attrs.get a q
  pub get-remove_self : (a : A) (k : String) → attrs.get (attrs.remove a k) k ≡ none
  pub get-remove_ne :
      (a : A) (k q : String) → q ≢ k → attrs.get (attrs.remove a k) q ≡ attrs.get a q

-- pcommon.InstrumentationScope
pub record Scope (A : Type 0) : Type 0 where
  pub name : String
  pub version : String
  pub attributes : A

pub record SpanEvent (A : Type 0) : Type 0 where
  pub name : String
  pub timestamp : ℕ
  pub attributes : A

-- ptrace.StatusCode
pub data StatusCode : Type 0 where
  unset ok error : StatusCode

-- Timestamps are uint64 nanoseconds.
pub record Span (A : Type 0) : Type 0 where
  pub trace_id : TraceId
  pub span_id : SpanId
  pub parent_span_id : SpanId
  pub name : String
  pub start_timestamp : ℕ
  pub end_timestamp : ℕ
  pub status : StatusCode
  pub attributes : A
  pub events : List (SpanEvent A)

pub record ScopeSpans (A : Type 0) : Type 0 where
  pub scope : Scope A
  pub spans : List (Span A)

pub record Resource (A : Type 0) : Type 0 where
  pub attributes : A

pub record ResourceSpans (A : Type 0) : Type 0 where
  pub resource : Resource A
  pub scope_spans : List (ScopeSpans A)

-- ptrace.Traces
abbrev pub Traces : Type 0 → Type 0
Traces A = List (ResourceSpans A)
