-- ===== src/Recovery/Format.antt =====
-- A recovery code as it is shown to the user, normalized again
-- (apps/idp-server/src/modules/mfa/mfa-recovery.service.ts).
use id_provider.Base.{
  ℕ, zero, suc, ◌+◌, ◌<◌, ◌%◌, ◌≡◌, refl, ap, Bool, true, false, ◌&&◌, ◌||◌, leb, String, arith,
}
use id_provider.Recovery.Code.{
  is_separator, without_separators, text_length, letter, letter_of, recovery_alphabet, grouped,
}
use Prim.Native.String
use Prim.Native.String.append
use Prim.Native.Char.{code}

-- a digit from 2 or an upper-case letter, by its code point
abbrev pub is_plain : ℕ → Bool
is_plain c = (leb b'2' c && leb c b'9') || (leb b'A' c && leb c b'Z')

abbrev pub IsPlain : String → Type 0
IsPlain String.[] = Unit
IsPlain (String.◌∷◌ c s) = (is_plain (code c) ≡ true) × IsPlain s

plain_separator : (c : ℕ) → is_plain c ≡ true → is_separator c ≡ false
plain_separator c h = ground arith

-- grouping adds separators only
pub without_separators-grouped :
    (n : ℕ) (s : String) → IsPlain s → without_separators (grouped n s) ≡ s
unfolding without_separators grouped
without_separators-grouped zero String.[] p = refl
without_separators-grouped (suc n) String.[] p = refl
without_separators-grouped zero (String.◌∷◌ c s) (h, p) =
    rw (plain_separator (code c) h) (ap (λ t. String.◌∷◌ c t) (without_separators-grouped 4 s p))
without_separators-grouped (suc n) (String.◌∷◌ c s) (h, p) =
    rw (plain_separator (code c) h) (ap (λ t. String.◌∷◌ c t) (without_separators-grouped n s p))

-- a text without separators stays as it is
pub without_separators_plain : (s : String) → IsPlain s → without_separators s ≡ s
unfolding without_separators
without_separators_plain String.[] p = refl
without_separators_plain (String.◌∷◌ c s) (h, p) =
    rw (plain_separator (code c) h) (ap (λ t. String.◌∷◌ c t) (without_separators_plain s p))

pub IsPlain-append : (s t : String) → IsPlain s → IsPlain t → IsPlain (String.◌++◌ s t)
IsPlain-append String.[] t p q = rw (append.nil t) q
IsPlain-append (String.◌∷◌ c s) t (h, p) q = rw (append.cons c s t) (h, IsPlain-append s t p q)

pub text_length-append :
    (s t : String) → text_length (String.◌++◌ s t) ≡ text_length s + text_length t
text_length-append String.[] t = rw (append.nil t) (omega arith)
text_length-append (String.◌∷◌ c s) t =
    rw (append.cons c s t) (omega (arith, text_length-append s t))

-- a letter of a text of such letters is one of them, and one only
letter_of-IsPlain :
    (s : String) (i : ℕ)
    → IsPlain s
    → i < text_length s
    → IsPlain (letter_of s i) × (text_length (letter_of s i) ≡ 1)
letter_of-IsPlain String.[] i p h = absurd (omega arith)
letter_of-IsPlain (String.◌∷◌ c s) zero (q, p) h = ((q, tt), refl)
letter_of-IsPlain (String.◌∷◌ c s) (suc i) (q, p) h = letter_of-IsPlain s i p (omega arith)

pub letter-IsPlain : (byte : ℕ) → IsPlain (letter byte) × (text_length (letter byte) ≡ 1)
unfolding letter
letter-IsPlain byte = letter_of-IsPlain recovery_alphabet (byte % 32) (ground arith) (omega arith)
