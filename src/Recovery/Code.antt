-- ===== src/Recovery/Code.antt =====
-- The text of a recovery code: `normalizeCode`, `lookupHash` and `generatePlainCode`
-- (apps/idp-server/src/modules/mfa/mfa-recovery.service.ts).
use id_provider.Base.{
  ℕ, zero, suc, ◌*◌, ◌%◌, ◌-◌, ◌==◌, ltb, leb, Bool, true, false, ◌&&◌, ◌||◌, String, if◌then◌else◌,
}
use id_provider.Store.{Action, fault, draw, raise, pure, ◌>>=◌}
use id_provider.Store.Env.{Env}
use Prim.Native.String
use Prim.Native.Char.{code}

-- The settings `MFA_RECOVERY_CODE_*`, and what the service takes from node:crypto and from the
-- language: the n-th random byte, the HMAC of a text under a key, and `toUpperCase`. A run of the
-- loop over random bytes draws at most `byte_fuel` of them in the model.
pub record RecoveryEnv : Type 0 where
  pub env : Env
  pub code_count : ℕ
  pub code_length : ℕ
  pub pepper : String
  pub random_byte : ℕ → ℕ
  pub hmac_sha256 : String → String → String
  pub upper : String → String
  pub byte_fuel : ℕ

-- `\s` of a regular expression: white space and line ends
abbrev pub is_space : ℕ → Bool
is_space c =
    (leb 9 c && leb c 13)
    || (c == 32
        || (c == 160
            || (c == 5760
                || ((leb 8192 c && leb c 8202)
                    || (c == 8232
                        || (c == 8233
                            || (c == 8239 || (c == 8287 || (c == 12288 || c == 65279)))))))))

-- `/[\s-]/`
abbrev pub is_separator : ℕ → Bool
is_separator c = is_space c || c == b'-'

-- `code.replace(/[\s-]/g, "")`
unfoldable pub without_separators : String → String
without_separators String.[] = ""
without_separators (String.◌∷◌ c s) =
    let rest = without_separators s in if is_separator (code c) then rest else String.◌∷◌ c rest

-- `normalizeCode`
unfoldable pub normalize_code : RecoveryEnv → String → String
unfolding without_separators
normalize_code e text = e.upper (without_separators text)

-- `lookupHash`
unfoldable pub lookup_hash : RecoveryEnv → String → String
unfolding normalize_code
lookup_hash e text = e.hmac_sha256 e.pepper (normalize_code e text)

abbrev pub text_length : String → ℕ
text_length String.[] = 0
text_length (String.◌∷◌ c s) = suc (text_length s)

abbrev pub text_drop : ℕ → String → String
text_drop zero s = s
text_drop (suc n) String.[] = ""
text_drop (suc n) (String.◌∷◌ c s) = text_drop n s

-- `slice(-8)`
abbrev pub last_eight : String → String
last_eight s = text_drop (text_length s - 8) s

abbrev pub recovery_alphabet : String
recovery_alphabet = "ABCDEFGHJKLMNPQRSTUVWXYZ23456789"

-- `recoveryAlphabet[i]`, as a text
abbrev pub letter_of : String → ℕ → String
letter_of String.[] i = ""
letter_of (String.◌∷◌ c s) zero = String.◌∷◌ c ""
letter_of (String.◌∷◌ c s) (suc i) = letter_of s i

unfoldable pub letter : ℕ → String
letter byte = letter_of recovery_alphabet (byte % text_length recovery_alphabet)

-- a byte that would favour the first letters
abbrev pub is_skipped : ℕ → Bool
is_skipped byte = leb (text_length recovery_alphabet * 7) byte

-- the loop that draws the letters
unfoldable pub raw_code : RecoveryEnv → ℕ → String → Action String
unfolding letter
raw_code e zero raw w = raise (fault "out of fuel") w
raw_code e (suc fuel) raw w = elim (ltb (text_length raw) e.code_length) [
  | false ↦ pure raw w
  | true ↦
      let (_, w') = draw w in
      let byte = e.random_byte w.draws in
      elim (is_skipped byte) [
        | true ↦ raw_code e fuel raw w'
        | false ↦ raw_code e fuel (String.◌++◌ raw (letter byte)) w'
      ]
]

-- `raw.match(/.{1,5}/g)?.join("-") ?? raw`: a hyphen after each five letters that others follow
unfoldable pub grouped : ℕ → String → String
grouped n String.[] = ""
grouped zero (String.◌∷◌ c s) = String.◌∷◌ "-" (String.◌∷◌ c (grouped 4 s))
grouped (suc n) (String.◌∷◌ c s) = String.◌∷◌ c (grouped n s)

unfoldable pub generate_plain_code : RecoveryEnv → Action String
unfolding raw_code grouped
generate_plain_code e = do raw ← raw_code e e.byte_fuel ""; pure (grouped 5 raw)
