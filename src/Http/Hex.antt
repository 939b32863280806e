-- ===== src/Http/Hex.antt =====
-- Hexadecimal text is read back as the bytes that it was made from.
use Prim.Native.Char.{Char, code}
use Prim.Native.String.{◌++◌ as append}
use text.Mathlib.TextLemmas.{nil-append, cons-append}
use ldndrc.Base.{
  ℕ, zero, suc, ◌/◌, ◌%◌, ◌<◌, ◌≡◌, refl, ap, ◌∙◌, String, some, List, [], ◌∷◌, All, hex_encode,
  arith,
}
use ldndrc.Base.Text.{digit_of, digits}
use ldndrc.Http.Auth.{hex_value, byte_before, hex_decode}

-- The digit of a number below 16, and that it is read back
digit-char :
    (n : ℕ)
    → n < 16
    → (c : Char) × (digit_of digits n ≡ String.◌∷◌ c String.[]) × (hex_value (code c) ≡ some n)
unfolding digit_of hex_value
digit-char zero h = ("0", refl, refl)
digit-char (suc zero) h = ("1", refl, refl)
digit-char (suc (suc zero)) h = ("2", refl, refl)
digit-char (suc (suc (suc zero))) h = ("3", refl, refl)
digit-char (suc (suc (suc (suc zero)))) h = ("4", refl, refl)
digit-char (suc (suc (suc (suc (suc zero))))) h = ("5", refl, refl)
digit-char (suc (suc (suc (suc (suc (suc zero)))))) h = ("6", refl, refl)
digit-char (suc (suc (suc (suc (suc (suc (suc zero))))))) h = ("7", refl, refl)
digit-char (suc (suc (suc (suc (suc (suc (suc (suc zero)))))))) h = ("8", refl, refl)
digit-char (suc (suc (suc (suc (suc (suc (suc (suc (suc zero))))))))) h = ("9", refl, refl)
digit-char (suc (suc (suc (suc (suc (suc (suc (suc (suc (suc zero)))))))))) h = ("a", refl, refl)
digit-char (suc (suc (suc (suc (suc (suc (suc (suc (suc (suc (suc zero))))))))))) h =
    ("b", refl, refl)
digit-char (suc (suc (suc (suc (suc (suc (suc (suc (suc (suc (suc (suc zero)))))))))))) h =
    ("c", refl, refl)
digit-char (suc (suc (suc (suc (suc (suc (suc (suc (suc (suc (suc (suc (suc zero))))))))))))) h =
    ("d", refl, refl)
digit-char (suc (suc (suc (suc (suc (suc (suc (suc (suc (suc (suc (suc (suc (suc zero))))))))))))))
      h =
    ("e", refl, refl)
digit-char
      (suc (suc (suc (suc (suc (suc (suc (suc (suc (suc (suc (suc (suc (suc (suc zero)))))))))))))))
      h =
    ("f", refl, refl)
digit-char
      (suc
        (suc (suc (suc (suc (suc (suc (suc (suc (suc (suc (suc (suc (suc (suc (suc n))))))))))))))))
      h =
    absurd (omega arith)

hex_decode-digits :
    (a b : ℕ) (s : String)
    → a < 16
    → b < 16
    → hex_decode (append (digit_of digits a) (append (digit_of digits b) s))
      ≡ byte_before (some a) (some b) (hex_decode s)
unfolding hex_decode
hex_decode-digits a b s ha hb =
    let (c, ec, vc) = digit-char a ha in
    let (d, ed, vd) = digit-char b hb in
    rw (ec, ed) (rw (cons-append, nil-append, cons-append, nil-append, vc, vd))

pub hex_decode-encode :
    (bytes : List ℕ) → All (λ b. b < 256) bytes → hex_decode (hex_encode bytes) ≡ some bytes
unfolding hex_encode
hex_decode-encode [] h = unfold hex_decode in refl
hex_decode-encode (b ∷ bs) h =
    hex_decode-digits (b / 16) (b % 16) (hex_encode bs) (omega (arith, h.0)) (omega arith)
    ∙ rw (hex_decode-encode bs h.1) (ap (λ (n : ℕ). some (n ∷ bs)) (omega arith))
