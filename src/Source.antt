-- ===== src/Source.antt =====
-- Readers of bounded content, `io.ReadAll(io.LimitReader(source, max+1))`, as
-- `internal/importer/tests.go`, `internal/content/files.go` and `internal/artifact/store.go` use
-- them.
use cotests.Prelude.{
  ℕ, ◌+◌, ◌≤◌, ◌<◌, ◌≡◌, refl, ap, sym, Option, none, some, List, ltb, leb, if◌then◌else◌, arith,
  length, take, length-take, take_all, Bool-cases, inl, inr,
}
use cotests.Outcome.{Error, Result, ok, err}

abbrev pub Bytes : Type 0
Bytes = List ℕ

-- An `io.Reader`: what it delivers before it ends, or breaks off with an error.
pub record Source : Type 0 where
  pub content : Bytes
  pub broken : Option Error

abbrev pub max_int64 : ℕ
max_int64 = 9223372036854775807

-- `max+1` as an int64: the greatest one wraps to a negative limit, which lets nothing through.
unfoldable pub beyond : ℕ → ℕ
beyond max = if ltb max max_int64 then max + 1 else 0

-- how reading ends once all of the content is delivered
unfoldable ended : Bytes → Option Error → Result Bytes
ended content none = ok content
ended content (some e) = err e

unfoldable pub read_beyond : ℕ → Source → Result Bytes
unfolding beyond ended
read_beyond max source =
    if leb (beyond max) (length source.content)
    then ok (take (beyond max) source.content)
    else ended source.content source.broken

-- What was read and is no longer than the limit is all that there was.
pub read_beyond_whole :
    (max : ℕ) (source : Source) (content : Bytes)
    → max < max_int64
    → read_beyond max source ≡ ok content
    → length content ≤ max
    → (content ≡ source.content) × (source.broken ≡ none)
unfolding read_beyond beyond ended
read_beyond_whole max source content bound h small = elim (Bool-cases (ltb max max_int64)) [
  | inr over ↦ absurd (ground arith)
  | inl under ↦ elim (Bool-cases (leb (max + 1) (length source.content))) [
    | inl long ↦
        let e : take (max + 1) source.content ≡ content = ok_value (rw (under, long) at h) in
        absurd (omega (arith, length-take (max + 1) source.content (ground arith), ap length e))
    | inr short ↦ whole source.broken (rw (under, short) at h)
  ]
]
  where
    ok_value : {a b : Bytes} → ◌≡◌ {A = Result Bytes} (ok a) (ok b) → a ≡ b
    ok_value k = cc

    whole :
        (broken : Option Error)
        → ended source.content broken ≡ ok content
        → (content ≡ source.content) × (broken ≡ none)
    whole none k = (sym (ok_value k), refl)
    whole (some e) k = cc

-- Content within the limit is copied whole.
pub take-beyond :
    (max : ℕ) (content : Bytes)
    → max < max_int64
    → length content ≤ max
    → take (beyond max) content ≡ content
unfolding beyond
take-beyond max content bound small = take_all (beyond max) content (ground arith)
