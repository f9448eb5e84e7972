-- ===== src/AuditChain/Sample.antt =====
-- A concrete `Codec`: a record is written as numbers between braces, each text behind its length.
-- It shows that what the chain relies on can be met; it is neither JSON nor SHA-256.
use mathlib.Core.List.{append_assoc}
use mathlib.Core.Option.{map as map_option}
use cognexus_tools.Common.{
  ℕ, zero, suc, ◌%◌, ◌≡◌, refl, ap, Bool, true, false, Option, none, some, List, [], ◌∷◌, ◌++◌, map,
  if◌then◌else◌, length, take, drop, Text, rstrip, strip, is_space, is_empty, nat_beq, pos, negsuc,
  arith, Distinct, text_key,
}
use cognexus_tools.AuditChain.Entry.{
  Value, null, boolean, int, float, str, nested, Record, Json, object, other, Codec, is_ascii,
}

abbrev bit : Bool → ℕ
bit true = 1
bit false = 0

abbrev unbit : ℕ → Bool
unbit zero = false
unbit (suc n) = true

-- Each form of value by its own number, then its parts, and a text last.
abbrev form : Value → List ℕ
form null = 0 ∷ 0 ∷ 0 ∷ []
form (boolean b) = 1 ∷ bit b ∷ 0 ∷ []
form (int (pos n)) = 2 ∷ n ∷ 0 ∷ []
form (int (negsuc n)) = 3 ∷ n ∷ 0 ∷ []
form (float w none z) = 4 ∷ 0 ∷ bit z ∷ []
form (float w (some (pos n)) z) = 5 ∷ n ∷ bit z ∷ []
form (float w (some (negsuc n)) z) = 6 ∷ n ∷ bit z ∷ []
form (str s) = 7 ∷ 0 ∷ 0 ∷ []
form (nested w e) = 8 ∷ bit e ∷ 0 ∷ []

abbrev written_text : Value → Text
written_text (float w n z) = w
written_text (str s) = s
written_text (nested w e) = w
written_text _ = []

unform : ℕ → ℕ → ℕ → Text → Value
unform zero n z w = null
unform (suc zero) n z w = boolean (unbit n)
unform (suc (suc zero)) n z w = int (pos n)
unform (suc (suc (suc zero))) n z w = int (negsuc n)
unform (suc (suc (suc (suc zero)))) n z w = float w none (unbit z)
unform (suc (suc (suc (suc (suc zero))))) n z w = float w (some (pos n)) (unbit z)
unform (suc (suc (suc (suc (suc (suc zero)))))) n z w = float w (some (negsuc n)) (unbit z)
unform (suc (suc (suc (suc (suc (suc (suc zero))))))) n z w = str w
unform (suc (suc (suc (suc (suc (suc (suc (suc k)))))))) n z w = nested w (unbit n)

unfoldable pub encode : Record → Text
encode [] = []
encode ((k, v) ∷ d) =
    length k ∷ (k ++ (form v ++ (length (written_text v) ∷ (written_text v ++ encode d))))

decode_text : Text → Option (Text × Text)
decode_text [] = none
decode_text (n ∷ s) = some (take n s, drop n s)

decode_value : Text → Option (Value × Text)
decode_value (f ∷ n ∷ z ∷ s) = elim (decode_text s) [
  | none ↦ none
  | some (w, r) ↦ some (unform f n z w, r)
]
decode_value _ = none

decode : ℕ → Text → Option Record
decode zero s = some []
decode (suc n) s = elim (decode_text s) [
  | none ↦ none
  | some (k, r) ↦ elim (decode_value r) [
    | none ↦ none
    | some (v, r') ↦ map_option (λ d. (k, v) ∷ d) (decode n r')
  ]
]

take-length : (s r : Text) → take (length s) (s ++ r) ≡ s
take-length [] r = refl
take-length (c ∷ s) r = ap (λ t. c ∷ t) (take-length s r)

drop-length : (s r : Text) → drop (length s) (s ++ r) ≡ r
drop-length [] r = refl
drop-length (c ∷ s) r = drop-length s r

decode_value-form :
    (v : Value) (r : Text)
    → decode_value (form v ++ (length (written_text v) ∷ (written_text v ++ r))) ≡ some (v, r)
unfolding decode_value decode_text unform
decode_value-form null r = refl
decode_value-form (boolean true) r = refl
decode_value-form (boolean false) r = refl
decode_value-form (int (pos n)) r = refl
decode_value-form (int (negsuc n)) r = refl
decode_value-form (float w none true) r = rw (take-length w r, drop-length w r)
decode_value-form (float w none false) r = rw (take-length w r, drop-length w r)
decode_value-form (float w (some (pos n)) true) r = rw (take-length w r, drop-length w r)
decode_value-form (float w (some (pos n)) false) r = rw (take-length w r, drop-length w r)
decode_value-form (float w (some (negsuc n)) true) r = rw (take-length w r, drop-length w r)
decode_value-form (float w (some (negsuc n)) false) r = rw (take-length w r, drop-length w r)
decode_value-form (str w) r = rw (take-length w r, drop-length w r)
decode_value-form (nested w true) r = rw (take-length w r, drop-length w r)
decode_value-form (nested w false) r = rw (take-length w r, drop-length w r)

regroup :
    (k : Text) (v : Value) (d : Record) (r : Text)
    → (k ++ (form v ++ (length (written_text v) ∷ (written_text v ++ encode d)))) ++ r
      ≡ k ++ (form v ++ (length (written_text v) ∷ (written_text v ++ (encode d ++ r))))
regroup k v d r = simp append_assoc

decode-encode : (d : Record) (r : Text) → decode (length d) (encode d ++ r) ≡ some d
unfolding decode encode decode_text
decode-encode [] r = refl
decode-encode ((k, v) ∷ d) r =
    let rest = form v ++ (length (written_text v) ∷ (written_text v ++ (encode d ++ r))) in
    rw (
      regroup k v d r,
      drop-length k rest,
      decode,
      decode_value-form v (encode d ++ r),
      decode-encode d r,
      regroup k v d r,
      take-length k rest,
    )

unfoldable pub dumps : Record → Text
dumps d = b'{' ∷ length d ∷ (encode d ++ b'}' ∷ [])

-- An array, `[`, is the other kind of value here.
unfoldable pub loads : Text → Option Json
unfolding decode decode_text decode_value unform
loads (c ∷ n ∷ s) = if nat_beq c b'{' then map_option object (decode n s) else none
loads (c ∷ []) = if nat_beq c b'[' then some (other (nested (b'[' ∷ []) true)) else none
loads [] = none

pub loads-dumps : (d : Record) → Distinct d → loads (dumps d) ≡ some (object d)
unfolding loads dumps
loads-dumps d h = rw (decode-encode d (b'}' ∷ []))

rstrip-brace : (s : Text) → rstrip (s ++ b'}' ∷ []) ≡ s ++ b'}' ∷ []
unfolding is_space
rstrip-brace [] = refl
rstrip-brace (c ∷ []) = refl
rstrip-brace (c ∷ d ∷ s) = rw (rstrip-brace (d ∷ s))

pub strip-dumps : (d : Record) → strip (dumps d) ≡ dumps d
unfolding strip dumps is_space
strip-dumps d = rstrip-brace (b'{' ∷ length d ∷ encode d)

unfoldable pub hmac : Text → Text → Text
hmac key t = map (λ n. n % 128) (b'm' ∷ (key ++ t))

is_ascii-map : (s : Text) → is_ascii (map (λ n. n % 128) s) ≡ true
is_ascii-map [] = refl
is_ascii-map (c ∷ s) = ground (arith, is_ascii-map s)

pub dumps_solid : (d : Record) → is_empty (dumps d) ≡ false
unfolding dumps
dumps_solid d = refl

pub hmac_solid : (k t : Text) → is_empty (hmac k t) ≡ false
unfolding hmac
hmac_solid k t = refl

pub hmac_ascii : (k t : Text) → is_ascii (hmac k t) ≡ true
unfolding hmac
hmac_ascii k t = is_ascii-map (b'm' ∷ (k ++ t))

abbrev pub sample : Codec
sample = record {
  loads = loads;
  dumps = dumps;
  canonical = encode;
  sha256 = λ t. b'h' ∷ t;
  hmac = hmac;
  to_int = λ t. none;
  clean = λ d. d;
  loads-dumps = loads-dumps;
  strip-dumps = strip-dumps;
  sha256_solid = λ t. refl;
  dumps_solid = dumps_solid;
  hmac_solid = hmac_solid;
  hmac_ascii = hmac_ascii;
}
