-- ===== src/Artifact/Keys.antt =====
-- The names in the directory of `internal/artifact/store.go`: keys from `randomKey`, the hexadecimal
-- digits of 32 random bytes, and the temporary files of uploads.
use Prim.Native.Nat.{ℕ, zero, suc, ◌/◌, ◌%◌, ◌*◌, ◌<◌}
use Prim.Native.Char.{code}
use Prim.Native.String.{String, ◌++◌, len}
use cotests.Prelude.{
  ◌≡◌, refl, ap, ◌∙◌, subst, Bool, true, false, ◌&&◌, ◌==◌, List, [], ◌∷◌, arith, All, length,
  is_empty, str_eq, eq_iff,
}
use text.Mathlib.TextLemmas.{nil-append, cons-append}
use text.Mathlib.TextPositions.{len-append}
use cotests.Outcome.{Result, ok, err, ◌>>=◌, ok-injective}
use cotests.Importer.Names.{has_byte, base_name, flat-base_name}
use cotests.Source.{Bytes}

-- strings.HasPrefix
unfoldable pub has_prefix : String → String → Bool
has_prefix String.[] s = true
has_prefix (String.◌∷◌ c p) String.[] = false
has_prefix (String.◌∷◌ c p) (String.◌∷◌ d s) = code c == code d && has_prefix p s

unfoldable pub is_upload : String → Bool
unfolding has_prefix
is_upload name = has_prefix ".upload-" name

abbrev hex_digits : List String
hex_digits =
    "0" ∷ "1" ∷ "2" ∷ "3" ∷ "4" ∷ "5" ∷ "6" ∷ "7" ∷ "8" ∷ "9" ∷ "a" ∷ "b" ∷ "c" ∷ "d" ∷ "e" ∷ "f"
    ∷ []

abbrev nth : List String → ℕ → String
nth [] n = ""
nth (x ∷ l) zero = x
nth (x ∷ l) (suc n) = nth l n

-- hex.EncodeToString
unfoldable pub hex_encode : Bytes → String
hex_encode [] = ""
hex_encode (b ∷ l) = nth hex_digits (b / 16) ++ (nth hex_digits (b % 16) ++ hex_encode l)

-- `rand.Read` filled 32 bytes, or failed
unfoldable pub random_key : Result Bytes → Result String
random_key random = random >>= λ bytes. ok (hex_encode bytes)

-- the key names a file of the store
unfoldable pub is_key : String → Bool
unfolding base_name
is_key key = (len key == 64) && str_eq (base_name key) key

nil-has_byte : (b : ℕ) → has_byte b "" ≡ false
unfolding has_byte
nil-has_byte b = refl

append-has_byte :
    (b : ℕ) (s t : String)
    → has_byte b s ≡ false
    → has_byte b t ≡ false
    → has_byte b (s ++ t) ≡ false
unfolding has_byte
append-has_byte b String.[] t h k = rw (nil-append t) k
append-has_byte b (String.◌∷◌ c s) t h k =
    rw (cons-append c s t) (ground (arith, append-has_byte b s t))

nth-has_byte :
    (b : ℕ) (l : List String) (n : ℕ)
    → All (λ s. has_byte b s ≡ false) l
    → has_byte b (nth l n) ≡ false
nth-has_byte b [] n h = nil-has_byte b
nth-has_byte b (x ∷ l) zero h = h.0
nth-has_byte b (x ∷ l) (suc n) h = nth-has_byte b l n h.1

digits_plain : All (λ s. has_byte 0x2e s ≡ false) hex_digits
unfolding has_byte
digits_plain = (
  refl,
  (
    refl,
    (
      refl,
      (
        refl,
        (
          refl,
          (
            refl,
            (refl, (refl, (refl, (refl, (refl, (refl, (refl, (refl, (refl, (refl, tt)))))))))),
          ),
        ),
      ),
    ),
  ),
)

hex_encode_plain : (bytes : Bytes) → has_byte 0x2e (hex_encode bytes) ≡ false
unfolding hex_encode
hex_encode_plain [] = nil-has_byte 0x2e
hex_encode_plain (b ∷ l) =
    let digit : (n : ℕ) → has_byte 0x2e (nth hex_digits n) ≡ false =
      λ n. nth-has_byte 0x2e hex_digits n digits_plain in
    append-has_byte 0x2e (nth hex_digits (b / 16)) (nth hex_digits (b % 16) ++ hex_encode l)
      (digit (b / 16))
      (append-has_byte 0x2e (nth hex_digits (b % 16)) (hex_encode l) (digit (b % 16))
        (hex_encode_plain l))

plain_not_upload : (s : String) → has_byte 0x2e s ≡ false → is_upload s ≡ false
unfolding has_byte is_upload
plain_not_upload String.[] h = refl
plain_not_upload (String.◌∷◌ c s) h = ground arith

-- A key is never the name of a temporary file.
pub random_key-not_upload :
    (random : Result Bytes) (key : String) → random_key random ≡ ok key → is_upload key ≡ false
unfolding random_key
random_key-not_upload (err e) key h = cc
random_key-not_upload (ok bytes) key h =
    subst (λ k. is_upload k ≡ false) (ok-injective h)
      (plain_not_upload (hex_encode bytes) (hex_encode_plain bytes))

-- 32 bytes, when the random source gives any.
abbrev pub FillsKey : Result Bytes → Type 0
FillsKey random =
    (bytes : Bytes) → random ≡ ok bytes → (length bytes ≡ 32) × All (λ b. b < 256) bytes

nth-len : (l : List String) (n : ℕ) → All (λ s. len s ≡ 1) l → n < length l → len (nth l n) ≡ 1
nth-len [] n h k = absurd (omega arith)
nth-len (x ∷ l) zero h k = h.0
nth-len (x ∷ l) (suc n) h k = nth-len l n h.1 (omega arith)

digits-len : All (λ s. len s ≡ 1) hex_digits
digits-len = (
  refl,
  (
    refl,
    (
      refl,
      (
        refl,
        (
          refl,
          (
            refl,
            (refl, (refl, (refl, (refl, (refl, (refl, (refl, (refl, (refl, (refl, tt)))))))))),
          ),
        ),
      ),
    ),
  ),
)

hex_encode-len :
    (bytes : Bytes) → All (λ b. b < 256) bytes → len (hex_encode bytes) ≡ 2 * length bytes
unfolding hex_encode
hex_encode-len [] h = refl
hex_encode-len (b ∷ l) h =
    let high = nth-len hex_digits (b / 16) digits-len (omega (arith, h.0)) in
    let low = nth-len hex_digits (b % 16) digits-len (omega arith) in
    omega (
      arith,
      high,
      low,
      len-append (nth hex_digits (b / 16)) (nth hex_digits (b % 16) ++ hex_encode l),
      len-append (nth hex_digits (b % 16)) (hex_encode l),
      hex_encode-len l h.1,
    )

digits_flat : All (λ s. has_byte 0x2f s ≡ false) hex_digits
unfolding has_byte
digits_flat = (
  refl,
  (
    refl,
    (
      refl,
      (
        refl,
        (
          refl,
          (
            refl,
            (refl, (refl, (refl, (refl, (refl, (refl, (refl, (refl, (refl, (refl, tt)))))))))),
          ),
        ),
      ),
    ),
  ),
)

hex_encode_flat : (bytes : Bytes) → has_byte 0x2f (hex_encode bytes) ≡ false
unfolding hex_encode
hex_encode_flat [] = nil-has_byte 0x2f
hex_encode_flat (b ∷ l) =
    let digit : (n : ℕ) → has_byte 0x2f (nth hex_digits n) ≡ false =
      λ n. nth-has_byte 0x2f hex_digits n digits_flat in
    append-has_byte 0x2f (nth hex_digits (b / 16)) (nth hex_digits (b % 16) ++ hex_encode l)
      (digit (b / 16))
      (append-has_byte 0x2f (nth hex_digits (b % 16)) (hex_encode l) (digit (b % 16))
        (hex_encode_flat l))

full : (s : String) → len s ≡ 64 → is_empty s ≡ false
full String.[] h = absurd (omega (arith, h))
full (String.◌∷◌ c s) h = refl

flat_is_key : (s : String) → len s ≡ 64 → has_byte 0x2f s ≡ false → is_key s ≡ true
unfolding is_key
flat_is_key s long flat =
    both (len s == 64) (str_eq (base_name s) s) (ground arith)
      ((eq_iff (base_name s) s).1 (flat-base_name s (full s long) flat))
  where
    both : (a b : Bool) → a ≡ true → b ≡ true → (a && b) ≡ true
    both a b h k = ground arith

-- What `randomKey` returns passes the check of keys in `Remove` and `Open`.
pub random_key_fits :
    (random : Result Bytes) (key : String)
    → FillsKey random
    → random_key random ≡ ok key
    → is_key key ≡ true
unfolding random_key is_key
random_key_fits (err e) key fills h = cc
random_key_fits (ok bytes) key fills h =
    let (count, small) = fills bytes refl in
    let long = hex_encode-len bytes small in
    subst (λ k. is_key k ≡ true) (ok-injective h)
      (flat_is_key (hex_encode bytes) (long ∙ ap (λ n. 2 * n) count) (hex_encode_flat bytes))
