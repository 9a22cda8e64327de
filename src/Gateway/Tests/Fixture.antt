-- ===== src/Gateway/Tests/Fixture.antt =====
-- A runtime whose JSON values are texts and whose sealed text is the plain one with its full stops
-- rewritten, and a key.
use Prim.Native.Nat.{ℕ, zero, suc, ◌+◌, ◌≤◌, ◌<◌}
use Prim.Native.Char.{Char, code}
use Prim.Native.String.{String}
use text.Mathlib.TextEquality.{Char-path}
use omnia_reader.Prelude.{
  ◌≡◌, refl, ap, ◌∙◌, Bool, true, false, not, some, [], ◌∷◌, eqb, eqb_iff, is_empty, length,
  if-holds, if◌then◌else◌, arith,
}
use omnia_reader.Prelude.CodeUnits.{code_units}
use omnia_reader.Prelude.Text.{concat, has_code, byte_length}
use omnia_reader.Gateway.Runtime.{Bytes, Runtime, RuntimeLaws}

abbrev escape : String → String
escape String.[] = ""
escape (String.◌∷◌ c s) =
    let rest = escape s in
    if eqb (code c) 46
    then concat "é" rest
    else if eqb (code c) 233
    then concat "ê0" rest
    else if eqb (code c) 234
    then concat "ê1" rest
    else String.◌∷◌ c rest

-- Whether the character before was the mark of a pair.
abbrev unescape_in : Bool → String → String
unescape_in in_pair String.[] = ""
unescape_in true (String.◌∷◌ c s) =
    let rest = unescape_in false s in if eqb (code c) 48 then concat "é" rest else concat "ê" rest
unescape_in false (String.◌∷◌ c s) =
    let rest = unescape_in false s in
    let pair = unescape_in true s in
    if eqb (code c) 234
    then pair
    else if eqb (code c) 233
    then concat "." rest
    else String.◌∷◌ c rest

escape_free : (s : String) → has_code 46 (escape s) ≡ false
escape_free String.[] = refl
escape_free (String.◌∷◌ c s) = ground (arith, escape_free s)

length-escape : (s : String) → length (code_units (escape s)) ≤ byte_length s
length-escape String.[] = omega arith
length-escape (String.◌∷◌ c s) = ground (arith, length-escape s)

first_char : (c d : Char) (s : String) → code c ≡ code d → String.◌∷◌ d s ≡ String.◌∷◌ c s
first_char c d s h = ap (λ e. String.◌∷◌ e s) (Char-path d c (omega arith))

unescape-escape : (s : String) → unescape_in false (escape s) ≡ s
unescape-escape String.[] = refl
unescape-escape (String.◌∷◌ c s) =
    let rest = escape s in
    let back : String → Type 0 = λ t. unescape_in false t ≡ String.◌∷◌ c s in
    if-holds back (eqb (code c) 46) _ _
      (λ dot.
        ap (λ t. concat "." t) (unescape-escape s) ∙ first_char c _ s ((eqb_iff (code c) 46).0 dot))
      (λ no_dot.
        if-holds back (eqb (code c) 233) _ _
          (λ acute.
            ap (λ t. concat "é" t) (unescape-escape s)
            ∙ first_char c _ s ((eqb_iff (code c) 233).0 acute))
          (λ no_acute.
            if-holds back (eqb (code c) 234) _ _
              (λ mark.
                ap (λ t. concat "ê" t) (unescape-escape s)
                ∙ first_char c _ s ((eqb_iff (code c) 234).0 mark))
              (λ plain. rw (plain, no_acute) (ap (λ t. String.◌∷◌ c t) (unescape-escape s)))))

abbrev pub text_runtime : Runtime String
text_runtime = record {
  seal = λ key iv aad text. escape text;
  open_sealed = λ key aad payload. some (unescape_in false payload);
  sealed_bytes = λ payload. 28 + byte_length (unescape_in false payload);
  sha256_base64url = λ key. "mZkq1v7bT0a9cX2d";
  stringify = λ v. v;
  parse = λ text. some text;
  is_object = λ v. not (is_empty (code_units v));
}

object_size : (s : String) → not (is_empty (code_units s)) ≡ true → 1 ≤ byte_length s
object_size String.[] h = cc
object_size (String.◌∷◌ c s) h = ground arith

pub text_runtime_laws : RuntimeLaws text_runtime
text_runtime_laws = record {
  open-seal = λ key iv aad text size vector. ap (λ t. some t) (unescape-escape text);
  sealed_bytes-seal = λ key iv aad text vector. ap (λ t. 28 + byte_length t) (unescape-escape text);
  length-seal = λ key iv aad text vector. ground (arith, length-escape text);
  seal_free = λ key iv aad text. escape_free text;
  sha256_free = λ key. refl;
  parse-stringify = λ v object. refl;
  stringify_object = λ v object. object_size v object;
}

abbrev pub test_key : Bytes
test_key =
    1 ∷ 2 ∷ 3 ∷ 4 ∷ 5 ∷ 6 ∷ 7 ∷ 8 ∷ 9 ∷ 10 ∷ 11 ∷ 12 ∷ 13 ∷ 14 ∷ 15 ∷ 16 ∷ 17 ∷ 18 ∷ 19 ∷ 20 ∷ 21
    ∷ 22 ∷ 23 ∷ 24 ∷ 25 ∷ 26 ∷ 27 ∷ 28 ∷ 29 ∷ 30 ∷ 31 ∷ 32 ∷ []

abbrev pub test_iv : Bytes
test_iv = 9 ∷ 8 ∷ 7 ∷ 6 ∷ 5 ∷ 4 ∷ 3 ∷ 2 ∷ 1 ∷ 0 ∷ 1 ∷ 2 ∷ []

-- A text of that many characters.
pub long_text : ℕ → String
long_text zero = ""
long_text (suc n) = concat "x" (long_text n)

pub byte_length-long_text : (n : ℕ) → byte_length (long_text n) ≡ n
unfolding long_text
byte_length-long_text zero = refl
byte_length-long_text (suc n) = ground (arith, byte_length-long_text n)

pub long_text-object : (n : ℕ) → 0 < n → not (is_empty (code_units (long_text n))) ≡ true
unfolding long_text
long_text-object zero h = ground arith
long_text-object (suc n) h = ground arith
